-- ===== src/Examples/Challenges.antt =====
-- Examples for challenge tokens, the proof of work and the pass cookie.
use django_waf.Base.{
  ℕ, ◌≤◌, ◌≡◌, refl, true, false, Option, none, some, List, [], ◌∷◌, Text, text, arith, ◌↔◌, ◌=ᵗ◌,
  NoChar, if◌then◌else◌,
}
use django_waf.Challenge.Work.{digest_has_leading_zero_bits}
use django_waf.Challenge.Work.LeadingZeros.{leading_zeros, digest_has_leading_zero_bits_iff}
use django_waf.Challenge.Token.{
  ChallengeToken, pending, is_pending, Decoded, unreadable, World, accepted,
  verify_challenge_solution,
}
use django_waf.Challenge.Token.Accept.{verify-Solved, Issued, Solved}
use django_waf.Challenge.Token.OneUse.{Attempt, acceptances, acceptances-le_one}
use django_waf.Challenge.PassCookie.{
  Fields, delimiter, ◌|||◌, normalise_ip, issue_pass_cookie, split_fields, validate_pass_cookie,
}
use django_waf.Challenge.PassCookie.Laws.{validate-issue, validate_sound, Grants}
use django_waf.Examples.Memory.{memory, empty_memory}

digest_has_leading_zero_bits_iff_example :
    (digest_has_leading_zero_bits (0 ∷ 31 ∷ []) 11 ≡ true) ↔ (11 ≤ leading_zeros (0 ∷ 31 ∷ []))
digest_has_leading_zero_bits_iff_example =
    digest_has_leading_zero_bits_iff (0 ∷ 31 ∷ []) 11 (omega arith, (omega arith, tt))

abbrev client : Text
client = text "10.0.0.1"

-- A digest that is the text itself.
abbrev digest : Text → List ℕ
digest s = s

abbrev no_payload : Text → Decoded
no_payload s = unreadable

abbrev row : ChallengeToken
row = record {
  ip_address = client;
  difficulty = 4;
  status = pending;
  expires_at = 100;
  solved_at = none;
  nonce = [];
}

-- The token is one byte with four zero bits in front.
abbrev token : Text
token = 15 ∷ []

abbrev world : World memory
world = record {
  server = empty_memory;
  tokens = λ t. if token =ᵗ t then some row else none;
  sent = [];
}

solution_accepted :
    (verify_challenge_solution memory digest no_payload token (text "n") client 50 world).0
    ≡ some accepted
unfolding verify_challenge_solution digest_has_leading_zero_bits
solution_accepted = refl

verify-Solved_example :
    (r : ChallengeToken) × (difficulty : ℕ) × Issued memory digest no_payload token
      (text "n")
      client
      50
      world
      r
      difficulty
    × Solved memory digest no_payload token
        (text "n")
        client
        50
        world
        (verify_challenge_solution memory digest no_payload token (text "n") client 50 world).1
        r
        difficulty
verify-Solved_example =
    verify-Solved memory digest no_payload token (text "n") client 50 world solution_accepted

abbrev attempt : Attempt memory
attempt = record { token = token; nonce = text "n"; ip = client; now = 50; server = empty_memory }

acceptances-le_one_example :
    (acceptances memory digest no_payload token (attempt ∷ attempt ∷ []) world ≤ 1)
    × ((r : ChallengeToken)
        → world.tokens token ≡ some r
        → is_pending r.status ≡ false
        → acceptances memory digest no_payload token (attempt ∷ attempt ∷ []) world ≡ 0)
    × (world.tokens token ≡ none
        → acceptances memory digest no_payload token (attempt ∷ attempt ∷ []) world ≡ 0)
acceptances-le_one_example =
    acceptances-le_one memory digest no_payload token (attempt ∷ attempt ∷ []) world

abbrev sign : Text → Text
sign s = text "5f"

abbrev canonical : Text → Option Text
canonical ip = none

-- A number written as the one character of that code.
abbrev show : ℕ → Text
show n = n ∷ []

abbrev read : Text → Option ℕ
read [] = none
read (n ∷ _) = some n

token-NoChar : NoChar delimiter (text "tok")
token-NoChar = ground arith

client-NoChar : NoChar delimiter (normalise_ip canonical client)
unfolding normalise_ip
client-NoChar = ground arith

sign-NoChar : NoChar delimiter (text "5f")
sign-NoChar = ground arith

validate-issue_example :
    validate_pass_cookie sign canonical read
      (issue_pass_cookie sign canonical show (text "tok") client 60 5_000_000)
      client
      6_000_000
    ≡ true
unfolding normalise_ip
validate-issue_example =
    validate-issue sign canonical show read (text "tok") client client 60 5_000_000 6_000_000
      token-NoChar client-NoChar (λ s. sign-NoChar) (λ n. refl)

abbrev cookie : Text
cookie = issue_pass_cookie sign canonical show (text "tok") client 60 5_000_000

cookie_accepted : validate_pass_cookie sign canonical read cookie client 6_000_000 ≡ true
unfolding normalise_ip
cookie_accepted =
    validate-issue sign canonical show read (text "tok") client client 60 5_000_000 6_000_000
      token-NoChar client-NoChar (λ s. sign-NoChar) (λ n. refl)

validate_sound_example :
    (prefix : Text) × (f : Fields) × (cookie ≡ prefix ||| sign prefix)
    × (split_fields prefix ≡ some f)
    × Grants sign canonical read client 6_000_000 f
validate_sound_example = validate_sound sign canonical read cookie client 6_000_000 cookie_accepted
