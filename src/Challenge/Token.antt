-- ===== src/Challenge/Token.antt =====
-- services/challenge_service.py, enums.py and models.py: challenge tokens, their issue and their
-- verification.
--
-- The table of tokens is a function from the token to its row. `sha256` is hashlib's, `encode` and
-- `decode` are the JSON text of the cached payload. One reading of the clock serves a whole call.
-- A solution has a result; the exceptions that the code does not raise itself (Redis, a token that
-- Redis knows and the table does not) are the `none` of `Exec`.
pub mod Accept
pub mod OneUse
use django_waf.Base.{
  ℕ, ◌+◌, ◌*◌, Bool, true, false, not, Option, none, some, List, [], ◌∷◌, ◌++◌, Text, text, ltb,
  if◌then◌else◌, is_empty, ◌=ᵗ◌,
}
use django_waf.Exec.{Exec, pure, raise, ◌>>=◌, ◌>>◌}
use django_waf.Redis.{Redis}
use django_waf.RateLimiter.{second}
use django_waf.Challenge.Work.{DifficultyConf, pick_difficulty, digest_has_leading_zero_bits}

pub data ChallengeStatus : Type 0 where
  pending solved expired failed : ChallengeStatus

pub record ChallengeToken : Type 0 where
  pub ip_address : Text
  pub difficulty : ℕ
  pub status : ChallengeStatus
  pub expires_at : ℕ
  pub solved_at : Option ℕ
  pub nonce : Text

pub data Signal : Type 0 where
  challenge_issued challenge_solved challenge_failed : (token ip : Text) → Signal

pub data Solution : Type 0 where
  accepted expired_error mismatch_error invalid_error : Solution

-- What `json.loads` and the two reads of the payload come to; a difficulty that is no number
-- raises an error that the code does not catch.
pub data Decoded : Type 0 where
  payload : (ip : Text) (difficulty : ℕ) → Decoded
  unreadable raises : Decoded

abbrev pub challenge_key : Text → Text
challenge_key token = text "waf:challenge:" ++ token

abbrev pub is_pending : ChallengeStatus → Bool
is_pending pending = true
is_pending _ = false

abbrev pub update :
    Text → ChallengeToken → (Text → Option ChallengeToken) → Text → Option ChallengeToken
update token row rows j = if token =ᵗ j then some row else rows j

module _ (r : Redis) where
  pub record World : Type 0 where
    pub server : r.Server
    pub tokens : Text → Option ChallengeToken
    pub sent : List Signal

module _ (r : Redis) where
  abbrev pub redis : {A : Type 0} → Exec r.Server A → Exec (World r) A
  redis m w = let (a, server) = m w.server in (a, record w { server = server })

  abbrev pub save : Text → ChallengeToken → Exec (World r) (Unit {0})
  save token row w = (some tt, record w { tokens = update token row w.tokens })

  abbrev pub send : Signal → Exec (World r) (Unit {0})
  send signal w = (some tt, record w { sent = signal ∷ w.sent })

  -- `objects.create`: the token is unique.
  abbrev create : Text → ChallengeToken → Option ChallengeToken → Exec (World r) (Unit {0})
  create token row none = save token row
  create token row (some _) = raise

  module _ (encode : Text → ℕ → ℕ → Text) where
    -- `token` is the random one that `secrets` gave.
    unfoldable pub issue_challenge :
        (Text → Text) → DifficultyConf → ℕ → Text → Text → Text → ℕ → Exec (World r) ChallengeToken
    issue_challenge lower conf ttl ip user_agent token now w =
        let row : ChallengeToken = record {
          ip_address = ip;
          difficulty = pick_difficulty lower conf user_agent;
          status = pending;
          expires_at = now + ttl * second;
          solved_at = none;
          nonce = [];
        } in
        (create token row (w.tokens token)
            >> redis (r.setex (challenge_key token) ttl (encode ip row.difficulty row.expires_at))
            >> send (challenge_issued token ip)
            >> pure row)
          w

  module _ (sha256 : Text → List ℕ) (decode : Text → Decoded) where
    module _ (token nonce ip : Text) (now : ℕ) where
      work_is_done : ℕ → Bool
      work_is_done difficulty = digest_has_leading_zero_bits (sha256 (token ++ nonce)) difficulty

      -- From the expiry check on, with what the lookup found.
      judge : ChallengeToken → Text → ℕ → Exec (World r) Solution
      judge row stored_ip difficulty =
          if not (is_pending row.status)
          then pure expired_error
          else if ltb row.expires_at now
          then save token (record row { status = expired }) >> pure expired_error
          else if not (stored_ip =ᵗ ip)
          then pure mismatch_error
          else if work_is_done difficulty
          then save token (record row { status = solved; solved_at = some now; nonce = nonce })
            >> redis (r.delete (challenge_key token))
            >> send (challenge_solved token ip)
            >> pure accepted
          else save token (record row { status = failed })
            >> send (challenge_failed token ip)
            >> pure invalid_error

      judge_stored : Option ChallengeToken → Exec (World r) Solution
      judge_stored none = pure invalid_error
      judge_stored (some row) = judge row row.ip_address row.difficulty

      judge_cached : Text → ℕ → Option ChallengeToken → Exec (World r) Solution
      judge_cached stored_ip difficulty none = raise
      judge_cached stored_ip difficulty (some row) = judge row stored_ip difficulty

      look_up_decoded : Decoded → Exec (World r) Solution
      look_up_decoded (payload stored_ip difficulty) w =
          judge_cached stored_ip difficulty (w.tokens token) w
      look_up_decoded unreadable w = judge_stored (w.tokens token) w
      look_up_decoded raises w = raise w

      -- An empty text is falsy, as `None` is.
      look_up : Option Text → Exec (World r) Solution
      look_up none w = judge_stored (w.tokens token) w
      look_up (some raw) w =
          if is_empty raw then judge_stored (w.tokens token) w else look_up_decoded (decode raw) w

      unfoldable pub verify_challenge_solution : Exec (World r) Solution
      unfolding work_is_done judge judge_stored judge_cached look_up_decoded look_up
      verify_challenge_solution = redis (r.get (challenge_key token)) >>= look_up
