-- ===== src/Rules/Evaluate/Ways.antt =====
-- The ways in which a request gets its verdict, as a relation.
use django_waf.Base.{
  ℕ, ◌<◌, ◌≡◌, Bool, true, false, none, some, ◌≤◌, ◌⊎◌, ◌=ᵗ◌, Bool, Text, text, is_empty, In,
}
use django_waf.Redis.{Redis}
use django_waf.RateLimiter.{RateLimitResult, check_rate_limit}
use django_waf.Rules.{
  block, challenge, Verdict, allowed, blocked, challenged, passed, BlockRule, AllowRule,
  EvaluationResult, plain_result,
}
use django_waf.Rules.RuleCache.{Rules}
use django_waf.Rules.Gate.{blocked_key, unsolved_challenge_count}
use django_waf.Rules.Scan.{block_candidate}
use django_waf.Rules.Scan.Laws.{Allows, first_passing}
use django_waf.Rules.Score.{action_to_verdict, score_to_verdict, score_path}
use django_waf.Rules.Evaluate.{Site, Request, is_bot, is_challenged, scored, matched, rate_limited}

module _ (site : Site) (r : Redis) (req : Request) where
  open site use {platform, conf}

  -- The gate has counted fewer unsolved challenges than the threshold.
  abbrev pub BelowThreshold : Type 0
  BelowThreshold =
      (s : r.Server) × (n : ℕ) × ((unsolved_challenge_count r platform.int req.ip
          (is_bot site r req) s).0
        ≡ some n)
      × (n < conf.gate.escalation_threshold)

  -- A result that is a challenge has passed the gate.
  abbrev pub Gated : Verdict → Type 0
  Gated verdict = is_challenged verdict ≡ true → BelowThreshold

  -- It has counted as many as the threshold, or more.
  abbrev pub AtThreshold : Type 0
  AtThreshold =
      (s : r.Server) × (n : ℕ) × ((unsolved_challenge_count r platform.int req.ip
          (is_bot site r req) s).0
        ≡ some n)
      × (conf.gate.escalation_threshold ≤ n)

  -- Redis holds a record that the address is blocked.
  abbrev pub Recorded : Text → Type 0
  Recorded value =
      (s : r.Server) × ((r.get (blocked_key req.ip) s).0 ≡ some (some value))
      × (is_empty value ≡ false)

  -- No block rule that has not expired matches.
  abbrev pub Unmatched : Rules → Type 0
  Unmatched rules =
      first_passing (block_candidate platform r req.now req.ip req.user_agent) rules.block_rules
      ≡ none

  -- The rate limits have been checked, with this outcome.
  abbrev pub Limited : RateLimitResult → Bool → Type 0
  Limited rate exceeded =
      (s : r.Server) × ((check_rate_limit r platform.upper platform.short_hash conf.rate req.ip
          req.path req.now req.method s).0
        ≡ some rate)
      × (rate.exceeded ≡ exceeded)

  -- No block rule matches and no rate limit is passed.
  abbrev pub Unsuspected : Rules → Type 0
  Unsuspected rules = Unmatched rules × (rate : RateLimitResult) × Limited rate false

  pub data Judged (rules : Rules) (res : EvaluationResult) : Type 0 where
    -- an allow rule that has not expired, matches, and has its host name confirmed if it asks for it
    by_allow_rule :
        (rule : AllowRule) (id : Text)
        → In rule rules.allow_rules
        → Allows platform r req.now req.ip req.user_agent conf.rdns_failure_ttl rule
        → platform.uuid rule.id ≡ some id
        → res ≡ matched site r req id (text "allow") passed none
        → Judged rules res
    -- the escalation of a challenge
    by_escalation : AtThreshold → res ≡ plain_result blocked (some block) → Judged rules res
    -- the fast path, with a record that names no rule
    by_unnamed_record :
        (value : Text)
        → Recorded value
        → (value =ᵗ text "1" ≡ true) ⊎ (platform.uuid value ≡ none)
        → res ≡ plain_result blocked (some block)
        → Judged rules res
    -- the fast path, with the rule that the record names
    by_record :
        (value id : Text)
        → Recorded value
        → platform.uuid value ≡ some id
        → res ≡ matched site r req id (text "block") blocked (some block)
        → Judged rules res
    -- the first block rule that has not expired and matches
    by_block_rule :
        (rule : BlockRule) (id : Text)
        → first_passing (block_candidate platform r req.now req.ip req.user_agent) rules.block_rules
          ≡ some rule
        → platform.uuid rule.id ≡ some id
        → Gated (action_to_verdict rule.action)
        → res
          ≡ matched site r req id (text "block") (action_to_verdict rule.action) (some rule.action)
        → Judged rules res
    -- a rate limit that is passed
    by_rate_limit :
        (rate : RateLimitResult)
        → Unmatched rules
        → Limited rate true
        → res ≡ rate_limited site r req rate
        → Judged rules res
    -- no referer, where the site challenges that
    by_no_referer :
        Unsuspected rules
        → (conf.challenge_no_referer ≡ true) × (is_empty req.referer ≡ true)
        → BelowThreshold
        → res ≡ plain_result challenged (some challenge)
        → Judged rules res
    -- a score above 0, to which the path adds its own
    by_score :
        (total : ℕ)
        → Unsuspected rules
        → 0 < total
        → score_path platform conf.scores req.path ≤ total
        → Gated (score_to_verdict conf.scores total).0
        → res ≡ scored site r req total
        → Judged rules res
    by_default :
        Unsuspected rules
        → score_path platform conf.scores req.path ≡ 0
        → res ≡ plain_result allowed none
        → Judged rules res
