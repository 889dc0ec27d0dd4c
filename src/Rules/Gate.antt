-- ===== src/Rules/Gate.antt =====
-- services/rule_engine.py: the count of unsolved challenges, the escalation gate, and the record of
-- a block for the fast path.
--
-- `escalation_rule` is `_create_escalation_rule`, which raises nothing: the id of the rule that
-- services/anomaly_detector.py makes or finds for the address, or `none` where it fails.
pub mod Laws
use django_waf.Base.{
  ℕ, Bool, true, false, Option, none, some, ◌++◌, Text, text, ltb, if◌then◌else◌, is_empty,
  is_truthy, get_or,
}
use django_waf.Exec.{Exec, pure, raise, try_except, ◌>>=◌, ◌>>◌}
use django_waf.Redis.{Redis}
use django_waf.Rules.{blocked, block, EvaluationResult, plain_result}
use django_waf.Rules.RuleCache.{Engine, redis}

abbrev pub challenged_key : Text → Text
challenged_key ip = text "waf:challenged:" ++ ip

abbrev pub solved_key : Text → Text
solved_key ip = text "waf:solved:" ++ ip

abbrev pub blocked_key : Text → Text
blocked_key ip = text "waf:blocked:" ++ ip

abbrev pub stats_key : Text
stats_key = text "waf:stats:today"

pub record GateConf : Type 0 where
  pub escalation_threshold : ℕ
  pub escalation_block_ttl : ℕ

module _ (r : Redis) where
  forget_if_solved : Text → ℕ → Option Text → Exec r.Server ℕ
  forget_if_solved ip count solved =
      if is_truthy solved then r.delete (challenged_key ip) >> pure 0 else pure count

  -- A client that is classified as a bot is counted whether or not it solves its challenges.
  count_unless_solved : Text → Bool → Option ℕ → Exec r.Server ℕ
  count_unless_solved ip is_bot none = raise
  count_unless_solved ip is_bot (some count) =
      if is_bot then pure count else r.get (solved_key ip) >>= forget_if_solved ip count

  count_from : (Text → Option ℕ) → Text → Bool → Option Text → Exec r.Server ℕ
  count_from int ip is_bot none = pure 0
  count_from int ip is_bot (some raw) =
      if is_empty raw then pure 0 else count_unless_solved ip is_bot (int raw)

  -- Any exception makes the count 0.
  unfoldable pub unsolved_challenge_count : (Text → Option ℕ) → Text → Bool → Exec r.Server ℕ
  unfolding forget_if_solved count_unless_solved count_from
  unsolved_challenge_count int ip is_bot =
      try_except (r.get (challenged_key ip) >>= count_from int ip is_bot) (pure 0)

  -- `str(rule_id) if rule_id else "1"`
  unfoldable pub record_block_verdict : Text → ℕ → Option Text → Exec r.Server (Unit {0})
  record_block_verdict ip ttl rule_id = do
    r.setex (blocked_key ip) ttl (get_or rule_id (text "1"))
    r.hincrby stats_key (text "blocked") 1

  module _ (int : Text → Option ℕ) (escalation_rule : Text → Option Text) (conf : GateConf) where
    escalate : Text → EvaluationResult → ℕ → Exec r.Server EvaluationResult
    escalate ip challenge_result count =
        if ltb count conf.escalation_threshold
        then pure challenge_result
        else record_block_verdict ip conf.escalation_block_ttl (escalation_rule ip)
          >> pure (plain_result blocked (some block))

    unfoldable pub gate_challenge_or_escalate :
        Text → Bool → EvaluationResult → Exec r.Server EvaluationResult
    unfolding escalate
    gate_challenge_or_escalate ip is_bot challenge_result =
        unsolved_challenge_count int ip is_bot >>= escalate ip challenge_result
