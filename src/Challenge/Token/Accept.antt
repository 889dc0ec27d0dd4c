-- ===== src/Challenge/Token/Accept.antt =====
-- What an accepted solution has proved, and what a submission from another address can do.
use django_waf.Base.{
  ℕ, ◌≤◌, ◌≡◌, ◌⊎◌, refl, Bool, true, false, Option, none, some, List, ◌++◌, Text, is_empty, =ᵗ_iff,
  arith, inl, inr,
}
use mathlib.Core.Path.{ap₂}
use django_waf.Exec.{continue}
use django_waf.Redis.{Redis}
use django_waf.Challenge.Work.{digest_has_leading_zero_bits}
use django_waf.Challenge.Token.{
  solved, ChallengeToken, accepted, Solution, Decoded, payload, unreadable, raises, is_pending,
  World, judge, judge_stored, judge_cached, look_up_decoded, look_up, work_is_done, challenge_key,
  verify_challenge_solution,
}

module _ (r : Redis) (sha256 : Text → List ℕ) (decode : Text → Decoded) (token nonce ip : Text)
    (now : ℕ) where
  -- The address and the difficulty that were issued, by the Redis payload or by the row.
  abbrev pub Issued : World r → ChallengeToken → ℕ → Type 0
  Issued w row difficulty =
      ((raw : Text) × ((r.get (challenge_key token) w.server).0 ≡ some (some raw))
        × (decode raw ≡ payload ip difficulty))
      ⊎ ((row.ip_address ≡ ip) × (row.difficulty ≡ difficulty))

  -- The row was live, the digest has the zero bits that the difficulty asks for, and the row is
  -- solved now.
  abbrev pub Solved : World r → World r → ChallengeToken → ℕ → Type 0
  Solved w after row difficulty =
      (w.tokens token ≡ some row)
      × (is_pending row.status ≡ true)
      × (now ≤ row.expires_at)
      × (digest_has_leading_zero_bits (sha256 (token ++ nonce)) difficulty ≡ true)
      × (after.tokens token
          ≡ some (record row { status = solved; solved_at = some now; nonce = nonce }))

  judge-Solved :
      (row : ChallengeToken) (stored_ip : Text) (difficulty : ℕ) (w : World r)
      → w.tokens token ≡ some row
      → (judge r sha256 decode token nonce ip now row stored_ip difficulty w).0 ≡ some accepted
      → (stored_ip ≡ ip)
        × Solved w
            (judge r sha256 decode token nonce ip now row stored_ip difficulty w).1
            row
            difficulty
  unfolding judge work_is_done
  judge-Solved row stored_ip difficulty w e h =
      ground (arith, =ᵗ_iff stored_ip ip, =ᵗ_iff token token)

  abbrev HasSolved : (ChallengeToken → ℕ → Type 0) → World r → Option Solution × World r → Type 0
  HasSolved Source w (result, after) =
      result ≡ some accepted
      → (row : ChallengeToken) × (difficulty : ℕ) × Source row difficulty
        × Solved w after row difficulty

  stored-Solved :
      (o : Option ChallengeToken) (w : World r)
      → w.tokens token ≡ o
      → HasSolved
          (λ row difficulty. (row.ip_address ≡ ip) × (row.difficulty ≡ difficulty))
          w
          (judge_stored r sha256 decode token nonce ip now o w)
  unfolding judge_stored
  stored-Solved none w e h = cc
  stored-Solved (some row) w e h =
      let (same, done) = judge-Solved row row.ip_address row.difficulty w e h in
      (row, row.difficulty, (same, refl), done)

  cached-Solved :
      (stored_ip : Text) (issued : ℕ) (o : Option ChallengeToken) (w : World r)
      → w.tokens token ≡ o
      → HasSolved
          (λ row difficulty. (stored_ip ≡ ip) × (issued ≡ difficulty))
          w
          (judge_cached r sha256 decode token nonce ip now stored_ip issued o w)
  unfolding judge_cached
  cached-Solved stored_ip issued none w e h = cc
  cached-Solved stored_ip issued (some row) w e h =
      let (same, done) = judge-Solved row stored_ip issued w e h in
      (row, issued, (same, refl), done)

  abbrev Read : Decoded → ChallengeToken → ℕ → Type 0
  Read d row difficulty =
      (d ≡ payload ip difficulty) ⊎ ((row.ip_address ≡ ip) × (row.difficulty ≡ difficulty))

  decoded-Solved :
      (d : Decoded) (w : World r)
      → HasSolved (Read d) w (look_up_decoded r sha256 decode token nonce ip now d w)
  unfolding look_up_decoded
  decoded-Solved (payload stored_ip issued) w h =
      let (row, difficulty, (same, e), done) =
        cached-Solved stored_ip issued (w.tokens token) w refl h in
      (row, difficulty, inl (ap₂ payload same e), done)
  decoded-Solved unreadable w h =
      let (row, difficulty, from_row, done) = stored-Solved (w.tokens token) w refl h in
      (row, difficulty, inr from_row, done)
  decoded-Solved raises w h = cc

  abbrev Cached : Option (Option Text) → ChallengeToken → ℕ → Type 0
  Cached reply row difficulty =
      ((raw : Text) × (reply ≡ some (some raw)) × (decode raw ≡ payload ip difficulty))
      ⊎ ((row.ip_address ≡ ip) × (row.difficulty ≡ difficulty))

  raw-Solved :
      (raw : Text) (w : World r) (b : Bool)
      → is_empty raw ≡ b
      → HasSolved
          (Cached (some (some raw)))
          w
          (look_up r sha256 decode token nonce ip now (some raw) w)
  unfolding look_up
  raw-Solved raw w true e h =
      let (row, difficulty, from_row, done) = stored-Solved (w.tokens token) w refl (rw e at h) in
      (row, difficulty, inr from_row, rw e done)
  raw-Solved raw w false e h =
      let (row, difficulty, source, done) = decoded-Solved (decode raw) w (rw e at h) in
      (row, difficulty, wrap row difficulty source, rw e done)
    where
      wrap :
          (row : ChallengeToken) (difficulty : ℕ)
          → Read (decode raw) row difficulty
          → Cached (some (some raw)) row difficulty
      wrap row difficulty (inl read) = inl (raw, refl, read)
      wrap row difficulty (inr from_row) = inr from_row

  answered-Solved :
      (reply : Option (Option Text)) (w w' : World r)
      → w'.tokens ≡ w.tokens
      → HasSolved (Cached reply) w (continue reply (look_up r sha256 decode token nonce ip now) w')
  unfolding look_up
  answered-Solved none w w' e h = cc
  answered-Solved (some none) w w' e h =
      let (row, difficulty, from_row, done) = stored-Solved (w'.tokens token) w' refl h in
      (row, difficulty, inr from_row, rw (← e) done)
  answered-Solved (some (some raw)) w w' e h =
      let (row, difficulty, source, done) = raw-Solved raw w' (is_empty raw) refl h in
      (row, difficulty, source, rw (← e) done)

  -- If a solution is accepted, its token was pending and not expired, it came from the address and
  -- has the digest that were issued, and the token is solved now, with the nonce and the time.
  pub verify-Solved :
      (w : World r)
      → (verify_challenge_solution r sha256 decode token nonce ip now w).0 ≡ some accepted
      → (row : ChallengeToken) × (difficulty : ℕ) × Issued w row difficulty
        × Solved w (verify_challenge_solution r sha256 decode token nonce ip now w).1 row difficulty
  unfolding verify_challenge_solution
  verify-Solved w h = answered-Solved _ w _ refl h
