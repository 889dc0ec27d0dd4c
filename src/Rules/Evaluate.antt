-- ===== src/Rules/Evaluate.antt =====
-- services/rule_engine.py: `evaluate_request`, step by step.
--
-- A `Site` holds what a deployment configures and what the engine calls outside the repository or
-- in services/anomaly_detector.py (`escalation_rule`). The clock is read once for a request.

pub mod Ways
pub mod Judged
pub mod Laws
use django_waf.Base.{
  ℕ, ◌+◌, Bool, true, false, not, ◌&&◌, ◌||◌, Option, none, some, List, [], ◌∷◌, Text, text, ltb,
  if◌then◌else◌, is_empty, is_truthy, is_some, any, starts_with, ◌=ᵗ◌,
}
use django_waf.Exec.{Exec, pure, raise, ◌>>=◌, ◌>>◌}
use django_waf.Redis.{Redis}
use django_waf.RateLimiter.{RateLimitResult, RateConf, check_rate_limit, get_request_count}
use django_waf.Client.Fingerprint.{
  Meta, Claims, FingerprintVerdict, bot, compute_fingerprint, is_known_fingerprint,
  classify_fingerprint, score_fingerprint_mismatch,
}
use django_waf.Client.UserAgent.{Traits, score_user_agent}
use django_waf.Rules.{
  RuleAction, block, challenge, throttle, Verdict, allowed, blocked, challenged, throttled, passed,
  BlockRule, AllowRule, EvaluationResult, plain_result, Platform,
}
use django_waf.Rules.RuleCache.{Rules, RuleCache, Engine, redis, load_rule_cache}
use django_waf.Rules.Gate.{GateConf, blocked_key, gate_challenge_or_escalate}
use django_waf.Rules.Scan.{record_rule_hit, check_allow_rules, check_block_rules}
use django_waf.Rules.Score.{ScoreConf, action_to_verdict, score_to_verdict, score_path}

pub record Conf : Type 0 where
  pub gate : GateConf
  pub rate : RateConf
  pub scores : ScoreConf
  pub rdns_failure_ttl : ℕ
  pub challenge_no_referer : Bool
  pub no_referer_exempt_paths : List Text

pub record Site : Type 1 where
  pub platform : Platform
  pub claims : Claims
  pub traits : Traits
  pub hex_sha256 : Text → Text
  pub encode : Rules → Text
  pub decode : Text → Option Rules
  pub read_rules : Option Rules
  pub escalation_rule : Text → Option Text
  pub conf : Conf

pub record Request : Type 0 where
  pub ip : Text
  pub user_agent : Text
  pub path : Text
  pub method : Text
  pub referer : Text
  -- `request_meta`, and `none` for `None` and for a dictionary with nothing in it
  pub meta : Option Meta
  pub now : ℕ

-- `request_meta or {}`
abbrev meta_or_empty : Option Meta → Meta
meta_or_empty none = λ _. []
meta_or_empty (some meta) = meta

abbrev is_bot_verdict : FingerprintVerdict → Bool
is_bot_verdict bot = true
is_bot_verdict _ = false

abbrev is_challenged : Verdict → Bool
is_challenged challenged = true
is_challenged _ = false

module _ (site : Site) (r : Redis) (req : Request) where
  open site use {platform, conf}

  -- The verdict on the fingerprint is found before everything else.
  abbrev pub is_bot : Bool
  is_bot =
      is_bot_verdict
        (classify_fingerprint site.claims platform.strip req.user_agent (meta_or_empty req.meta))

  abbrev pub gate : EvaluationResult → Exec r.Server EvaluationResult
  gate = gate_challenge_or_escalate r platform.int site.escalation_rule conf.gate req.ip is_bot

  -- A result goes through the gate if it is a challenge.
  abbrev gated : EvaluationResult → Exec r.Server EvaluationResult
  gated result = if is_challenged result.verdict then gate result else pure result

  -- Steps 9 to 11: the scores of the path, the fingerprint and the user agent.
  fingerprint_score : Option Meta → Exec r.Server ℕ
  fingerprint_score none = pure 0
  fingerprint_score (some meta) = do
    known ←
        is_known_fingerprint r
          (compute_fingerprint platform.strip platform.lower site.hex_sha256 meta)
    pure (
        if known
        then 0
        else score_fingerprint_mismatch site.claims platform.strip req.user_agent meta)

  user_agent_score : Exec r.Server ℕ
  user_agent_score = do
    recent_count ← get_request_count r req.ip (text "5m") req.now
    pure (if ltb 10 recent_count then score_user_agent site.traits req.user_agent else 0)

  abbrev scored : ℕ → EvaluationResult
  scored total =
      let (verdict, action) = score_to_verdict conf.scores total in
      record (plain_result verdict action) { anomaly_score = some total }

  judge_score : ℕ → Exec r.Server EvaluationResult
  judge_score total = if ltb 0 total then gated (scored total) else pure (plain_result allowed none)

  by_scores : Exec r.Server EvaluationResult
  by_scores = do
    fp_score ← fingerprint_score req.meta
    ua_score ← user_agent_score
    judge_score (ua_score + score_path platform conf.scores req.path + fp_score)

  -- Step 8: requests with no referer.
  abbrev is_referer_exempt : Bool
  is_referer_exempt =
      any (λ p. req.path =ᵗ p || starts_with req.path p) conf.no_referer_exempt_paths

  by_referer : Exec r.Server EvaluationResult
  by_referer =
      if conf.challenge_no_referer && is_empty req.referer && not is_referer_exempt
      then gate (plain_result challenged (some challenge))
      else by_scores

  -- Step 7: rate limits.
  abbrev rate_limited : RateLimitResult → EvaluationResult
  rate_limited rate = record (plain_result throttled (some throttle)) {
    retry_after = rate.retry_after;
    window = rate.window;
  }

  judge_rate : RateLimitResult → Exec r.Server EvaluationResult
  judge_rate rate = if rate.exceeded then pure (rate_limited rate) else by_referer

  by_rate : Exec r.Server EvaluationResult
  by_rate =
      check_rate_limit r platform.upper platform.short_hash conf.rate req.ip req.path req.now
        req.method
      >>= judge_rate

  -- Step 6: block rules; `UUID(matched_id)` may raise.
  abbrev pub matched : Text → Text → Verdict → Option RuleAction → EvaluationResult
  matched id rule_type verdict action = record (plain_result verdict action) {
    matched_rule_id = some id;
    matched_rule_type = rule_type;
  }

  apply_block_rule : BlockRule → Option Text → Exec r.Server EvaluationResult
  apply_block_rule rule none = raise
  apply_block_rule rule (some id) =
      gated (matched id (text "block") (action_to_verdict rule.action) (some rule.action))

  judge_block_rule : Option BlockRule → Exec r.Server EvaluationResult
  judge_block_rule none = by_rate
  judge_block_rule (some rule) = apply_block_rule rule (platform.uuid rule.id)

  by_block_rules : Rules → Exec r.Server EvaluationResult
  by_block_rules rules =
      check_block_rules platform r req.now req.ip req.user_agent rules.block_rules
      >>= judge_block_rule

  -- Step 5: the addresses that are known to be blocked. "1" and a value that is no UUID block with no
  -- rule to name.
  attribute_block : Text → Option Text → Exec r.Server EvaluationResult
  attribute_block value none = pure (plain_result blocked (some block))
  attribute_block value (some id) =
      record_rule_hit r value >> pure (matched id (text "block") blocked (some block))

  judge_cached : Rules → Option Text → Exec r.Server EvaluationResult
  judge_cached rules none = by_block_rules rules
  judge_cached rules (some value) =
      if is_empty value
      then by_block_rules rules
      else attribute_block value (if value =ᵗ text "1" then none else platform.uuid value)

  by_blocked_cache : Rules → Exec r.Server EvaluationResult
  by_blocked_cache rules = r.get (blocked_key req.ip) >>= judge_cached rules

  -- Step 4: allow rules.
  apply_allow_rule : Option Text → Exec r.Server EvaluationResult
  apply_allow_rule none = raise
  apply_allow_rule (some id) = pure (matched id (text "allow") passed none)

  judge_allow_rule : Rules → Option AllowRule → Exec r.Server EvaluationResult
  judge_allow_rule rules none = by_blocked_cache rules
  judge_allow_rule rules (some rule) = apply_allow_rule (platform.uuid rule.id)

  by_rules : RuleCache → Exec r.Server EvaluationResult
  by_rules cache =
      check_allow_rules platform r req.now req.ip req.user_agent conf.rdns_failure_ttl
        cache.rules.allow_rules
      >>= judge_allow_rule cache.rules

  unfoldable pub evaluate_request : Exec (Engine r) EvaluationResult
  unfolding by_rules judge_allow_rule apply_allow_rule by_blocked_cache judge_cached attribute_block
      by_block_rules judge_block_rule apply_block_rule by_rate judge_rate by_referer by_scores
      judge_score user_agent_score fingerprint_score
  evaluate_request = do
    cache ← load_rule_cache r platform.show site.encode site.decode site.read_rules platform.int
    redis r (by_rules cache)
