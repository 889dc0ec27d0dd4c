-- ===== src/Middleware/Escalation.antt =====
-- An escalation that the gate of services/rule_engine.py records and the middleware then handles as
-- a block.
use django_waf.Base.{ℕ, ◌≤◌, ◌≡◌, refl, ap, ◌∙◌, Option, some, Text, text, Bool, arith, get_or}
use django_waf.Redis.{Redis}
use django_waf.Redis.Strings.{StringLaws}
use django_waf.Rules.{block, blocked, EvaluationResult, plain_result}
use django_waf.Rules.Gate.{
  GateConf, blocked_key, unsolved_challenge_count, gate_challenge_or_escalate,
}
use django_waf.Rules.Gate.Laws.{gate_lem}
use django_waf.Middleware.{HttpRequest, MiddlewareConf, Traffic}
use django_waf.Middleware.Verdicts.{handle_verdict}
use django_waf.Middleware.Verdicts.Laws.{handle_verdict-Blocks}

module _ (r : Redis) (laws : StringLaws r) (conf : MiddlewareConf) (http : HttpRequest)
    (int : Text → Option ℕ) (escalation_rule : Text → Option Text) (gate_conf : GateConf) where
  open http use {request}

  -- For a client that has reached the threshold, and whose escalation rule exists, the gate answers
  -- with a block and records the rule's id for the configured time; when the middleware handles that
  -- result, the record becomes "1" for 300 seconds, so the id and the time are lost.
  pub escalation-overwritten :
      (is_bot : Bool) (challenge_result : EvaluationResult) (rule_id : Text) (n : ℕ)
      (t after : Traffic r)
      → (unsolved_challenge_count r int request.ip is_bot t.engine.server).0 ≡ some n
      → gate_conf.escalation_threshold ≤ n
      → escalation_rule request.ip ≡ some rule_id
      → after.engine.server
        ≡ (gate_challenge_or_escalate r int escalation_rule gate_conf request.ip is_bot
            challenge_result t.engine.server).1
      → ((gate_challenge_or_escalate r int escalation_rule gate_conf request.ip is_bot
            challenge_result t.engine.server).0
          ≡ some (plain_result blocked (some block)))
        × (laws.cell after.engine.server (blocked_key request.ip)
            ≡ some (record { value = rule_id; ttl = gate_conf.escalation_block_ttl }))
        × (laws.cell
              (handle_verdict r conf http (plain_result blocked (some block)) after).1.engine.server
              (blocked_key request.ip)
            ≡ some (record { value = text "1"; ttl = 300 }))
  escalation-overwritten is_bot challenge_result rule_id n t after counted reached named same =
      let (m, e, verdict, told) =
        gate_lem r int escalation_rule gate_conf laws request.ip is_bot challenge_result
          t.engine.server in
      let equal : m ≡ n = cc in
      let over : gate_conf.escalation_threshold ≤ m = omega arith in
      (
        verdict ∙ ap some (ground arith),
        rw same (
            told over
            ∙ ap
                (λ o.
                  some
                    (record { value = get_or o (text "1"); ttl = gate_conf.escalation_block_ttl }))
                named),
        (handle_verdict-Blocks r conf http laws (plain_result blocked (some block)) after refl).0,
      )
