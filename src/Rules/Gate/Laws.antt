-- ===== src/Rules/Gate/Laws.antt =====
-- When a challenge becomes a block, and what the fast path is told.
use django_waf.Base.{
  ℕ, ◌≤◌, ◌≡◌, inl, inr, refl, Bool, true, false, Option, some, Text, text, ltb, if◌then◌else◌,
  is_empty, get_or, tests, ltb→lt, Bool-cases, Option-cases,
}
use django_waf.Exec.{◌>>=◌}
use django_waf.Redis.{Redis}
use django_waf.Redis.Strings.{StringLaws}
use django_waf.Rules.{blocked, block, EvaluationResult, plain_result}
use django_waf.Rules.Gate.{
  challenged_key, blocked_key, GateConf, count_from, unsolved_challenge_count, record_block_verdict,
  escalate, gate_challenge_or_escalate,
}

module _ (r : Redis) (int : Text → Option ℕ) where
  -- The count never raises: with Redis down, or a counter that is no number, it is 0, as it is for
  -- an address that was never challenged.
  pub unsolved_count-Total :
      (ip : Text) (is_bot : Bool) (s : r.Server)
      → (n : ℕ) × ((unsolved_challenge_count r int ip is_bot s).0 ≡ some n)
  unfolding unsolved_challenge_count
  unsolved_count-Total ip is_bot s =
      elim (Option-cases ((r.get (challenged_key ip) >>= count_from r int ip is_bot) s).0) [
        | inl e ↦ (0, rw e refl)
        | inr (n, e) ↦ (n, rw e refl)
      ]

  -- For a bot, the counter that Redis holds is the count, whatever was solved.
  pub unsolved_count-bot :
      (ip raw : Text) (n : ℕ) (s : r.Server)
      → (r.get (challenged_key ip) s).0 ≡ some (some raw)
      → is_empty raw ≡ false
      → int raw ≡ some n
      → (unsolved_challenge_count r int ip true s).0 ≡ some n
  unfolding unsolved_challenge_count
  unsolved_count-bot ip raw n s e h k = rw (e, h, k)

  module _ (escalation_rule : Text → Option Text) (conf : GateConf) where
    escalate_lem :
        (laws : StringLaws r) (ip : Text) (challenge : EvaluationResult) (n : ℕ) (s : r.Server)
        → ((escalate r int escalation_rule conf ip challenge n s).0
            ≡ some (
                if ltb n conf.escalation_threshold
                then challenge
                else plain_result blocked (some block)))
          × (conf.escalation_threshold ≤ n
              → laws.cell (escalate r int escalation_rule conf ip challenge n s).1 (blocked_key ip)
                ≡ some (record {
                  value = get_or (escalation_rule ip) (text "1");
                  ttl = conf.escalation_block_ttl;
                }))
    unfolding escalate record_block_verdict
    escalate_lem laws ip challenge n s = elim (Bool-cases (ltb n conf.escalation_threshold)) [
      | inl below ↦
          rw below (refl, λ h. absurd (omega (tests, ltb→lt n conf.escalation_threshold below)))
      | inr reached ↦
          simp
            (reached, laws.setex_answers, laws.hincrby_answers, laws.cell-hincrby, laws.cell-setex)
            (refl, λ h. refl)
    ]

    -- The gate lets a challenge through exactly if the count is below the threshold; else it answers
    -- with a block, and the fast path gets the id of the escalation rule, "1" if there is none, for
    -- the configured time. It raises nothing while Redis takes the record of the block.
    pub gate_lem :
        (laws : StringLaws r) (ip : Text) (is_bot : Bool) (challenge : EvaluationResult)
        (s : r.Server)
        → (n : ℕ) × ((unsolved_challenge_count r int ip is_bot s).0 ≡ some n)
          × ((gate_challenge_or_escalate r int escalation_rule conf ip is_bot challenge s).0
              ≡ some (
                  if ltb n conf.escalation_threshold
                  then challenge
                  else plain_result blocked (some block)))
          × (conf.escalation_threshold ≤ n
              → laws.cell
                  (gate_challenge_or_escalate r int escalation_rule conf ip is_bot challenge s).1
                  (blocked_key ip)
                ≡ some (record {
                  value = get_or (escalation_rule ip) (text "1");
                  ttl = conf.escalation_block_ttl;
                }))
    unfolding gate_challenge_or_escalate
    gate_lem laws ip is_bot challenge s =
        let (n, e) = unsolved_count-Total ip is_bot s in
        let (verdict, told) =
          escalate_lem laws ip challenge n (unsolved_challenge_count r int ip is_bot s).1 in
        (n, e, rw e verdict, rw e told)
