-- ===== src/Challenge/Token/OneUse.antt =====
-- A challenge token is accepted at most once.
use django_waf.Base.{
  ℕ, ◌+◌, ◌≤◌, ◌≡◌, refl, false, Option, none, some, List, [], ◌∷◌, Text, if◌then◌else◌, is_empty,
  ◌=ᵗ◌, =ᵗ_iff, arith, Bool-cases, inl, inr,
}
use django_waf.Exec.{continue}
use django_waf.Redis.{Redis}
use django_waf.Challenge.Token.{
  ChallengeToken, Solution, accepted, Decoded, payload, unreadable, raises, is_pending, World,
  judge, judge_stored, judge_cached, look_up_decoded, look_up, verify_challenge_solution,
}

-- The acceptances that a row can still give.
abbrev uses_left : Option ChallengeToken → ℕ
uses_left none = 0
uses_left (some row) = if is_pending row.status then 1 else 0

abbrev acceptance : Option Solution → ℕ
acceptance (some accepted) = 1
acceptance _ = 0

abbrev acceptance_of : Text → Text → Option Solution → ℕ
acceptance_of k token result = if token =ᵗ k then acceptance result else 0

module _ (r : Redis) (sha256 : Text → List ℕ) (decode : Text → Decoded) (k token nonce ip : Text)
    (now : ℕ) where
  -- The acceptance of `k` is paid by what its row had left.
  abbrev Pays : World r → Option Solution × World r → Type 0
  Pays w (result, after) =
      acceptance_of k token result + uses_left (after.tokens k) ≤ uses_left (w.tokens k)

  judge-Pays :
      (row : ChallengeToken) (stored_ip : Text) (difficulty : ℕ) (w : World r)
      → w.tokens token ≡ some row
      → Pays w (judge r sha256 decode token nonce ip now row stored_ip difficulty w)
  unfolding judge
  judge-Pays row stored_ip difficulty w e = ground (arith, =ᵗ_iff token k)

  stored-Pays :
      (o : Option ChallengeToken) (w : World r)
      → w.tokens token ≡ o
      → Pays w (judge_stored r sha256 decode token nonce ip now o w)
  unfolding judge_stored
  stored-Pays none w e = ground (arith, =ᵗ_iff token k)
  stored-Pays (some row) w e = judge-Pays row row.ip_address row.difficulty w e

  cached-Pays :
      (stored_ip : Text) (difficulty : ℕ) (o : Option ChallengeToken) (w : World r)
      → w.tokens token ≡ o
      → Pays w (judge_cached r sha256 decode token nonce ip now stored_ip difficulty o w)
  unfolding judge_cached
  cached-Pays stored_ip difficulty none w e = ground (arith, =ᵗ_iff token k)
  cached-Pays stored_ip difficulty (some row) w e = judge-Pays row stored_ip difficulty w e

  decoded-Pays :
      (d : Decoded) (w : World r) → Pays w (look_up_decoded r sha256 decode token nonce ip now d w)
  unfolding look_up_decoded
  decoded-Pays (payload stored_ip difficulty) w =
      cached-Pays stored_ip difficulty (w.tokens token) w refl
  decoded-Pays unreadable w = stored-Pays (w.tokens token) w refl
  decoded-Pays raises w = ground (arith, =ᵗ_iff token k)

  look_up-Pays :
      (raw : Option Text) (w : World r) → Pays w (look_up r sha256 decode token nonce ip now raw w)
  unfolding look_up
  look_up-Pays none w = stored-Pays (w.tokens token) w refl
  look_up-Pays (some raw) w = elim (Bool-cases (is_empty raw)) [
    | inl e ↦ rw e (stored-Pays (w.tokens token) w refl)
    | inr e ↦ rw e (decoded-Pays (decode raw) w)
  ]

  answered-Pays :
      (o : Option (Option Text)) (w w' : World r)
      → w'.tokens ≡ w.tokens
      → Pays w (continue o (look_up r sha256 decode token nonce ip now) w')
  answered-Pays none w w' e = rw e (ground (arith, =ᵗ_iff token k))
  answered-Pays (some raw) w w' e = rw (← e) (look_up-Pays raw w')

  verify-Pays :
      (w : World r) → Pays w (verify_challenge_solution r sha256 decode token nonce ip now w)
  unfolding verify_challenge_solution
  verify-Pays w = answered-Pays _ w _ refl

-- A submission: what is verified, when, and the Redis server as other requests have left it.
pub record Attempt (r : Redis) : Type 0 where
  pub token : Text
  pub nonce : Text
  pub ip : Text
  pub now : ℕ
  pub server : r.Server

module _ (r : Redis) (sha256 : Text → List ℕ) (decode : Text → Decoded) where
  verify_attempt : Attempt r → World r → Option Solution × World r
  verify_attempt a w =
      verify_challenge_solution r sha256 decode a.token a.nonce a.ip a.now
        (record w { server = a.server })

  -- How many of the attempts are accepted for the token `k`.
  pub acceptances : Text → List (Attempt r) → World r → ℕ
  acceptances k [] w = 0
  acceptances k (a ∷ attempts) w =
      let (result, after) = verify_attempt a w in
      acceptance_of k a.token result + acceptances k attempts after

  acceptances-le :
      (k : Text) (attempts : List (Attempt r)) (w : World r)
      → acceptances k attempts w ≤ uses_left (w.tokens k)
  unfolding acceptances verify_attempt
  acceptances-le k [] w = omega arith
  acceptances-le k (a ∷ attempts) w = omega (
    arith,
    verify-Pays r sha256 decode k a.token a.nonce a.ip a.now (record w { server = a.server }),
    acceptances-le k attempts (verify_attempt a w).1,
  )

  -- Of any sequence of submissions, whatever their nonces, addresses and times and whatever Redis
  -- holds when each is made, at most one is accepted for a given token, and none if the token is
  -- unknown or no longer pending.
  pub acceptances-le_one :
      (k : Text) (attempts : List (Attempt r)) (w : World r)
      → (acceptances k attempts w ≤ 1)
        × ((row : ChallengeToken)
            → w.tokens k ≡ some row
            → is_pending row.status ≡ false
            → acceptances k attempts w ≡ 0)
        × (w.tokens k ≡ none → acceptances k attempts w ≡ 0)
  acceptances-le_one k attempts w = (
    ground (arith, acceptances-le k attempts w),
    (λ row e p. ground (arith, acceptances-le k attempts w)),
    λ e. ground (arith, acceptances-le k attempts w),
  )
