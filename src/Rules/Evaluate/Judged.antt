-- ===== src/Rules/Evaluate/Judged.antt =====
-- What `evaluate_request` answers is reached in one of the ways of `Evaluate.Ways`.
use django_waf.Base.{
  ℕ, ◌≡◌, refl, sym, ap, ◌∙◌, Bool, true, false, ◌≤◌, ◌⊎◌, ◌=ᵗ◌, inl, inr, Bool-cases,
  if◌then◌else◌, arith, ltb_false→le, not, ◌&&◌, Option, none, some, Text, ◌+◌, text, ltb, is_empty,
  In, ltb→lt,
}
use mathlib.Core.Bool.{false≢true}
use django_waf.Exec.{continue}
use django_waf.Exec.Ensures.{
  Ensures, Ensures-pure, Ensures-raise, Ensures-if, Ensures-bind, Ensures-bind_from,
}
use django_waf.Redis.{Redis}
use django_waf.Rules.{BlockRule, AllowRule, EvaluationResult}
use django_waf.Rules.RuleCache.{Rules, RuleCache, Engine, redis, load_rule_cache}
use django_waf.Rules.Gate.{blocked_key, unsolved_challenge_count, gate_challenge_or_escalate}
use django_waf.Rules.Scan.{block_candidate, record_rule_hit}
use django_waf.Rules.Scan.Laws.{
  Allows, first_passing, check_block_rules_lem, check_allow_rules_sound,
}
use django_waf.Rules.Score.{score_path}
use django_waf.Rules.Evaluate.Ways.{
  BelowThreshold, Gated, Recorded, Unmatched, Unsuspected, Judged, by_allow_rule, by_escalation,
  by_unnamed_record, by_record, by_block_rule, by_rate_limit, by_no_referer, by_score, by_default,
}
use django_waf.Rules.Evaluate.{
  Site, Request, is_bot, is_challenged, gate, gated, scored, judge_score, by_scores, by_referer,
  judge_rate, by_rate, apply_block_rule, judge_block_rule, by_block_rules, attribute_block,
  judge_cached, by_blocked_cache, apply_allow_rule, judge_allow_rule, by_rules, evaluate_request,
  fingerprint_score, user_agent_score, is_referer_exempt, apply_allow_rule,
}

both : (a b c : Bool) → a && b && c ≡ true → (a ≡ true) × (b ≡ true)
both true true c h = (refl, refl)
both true false c h = absurd (false≢true h)
both false b c h = absurd (false≢true h)

module _ (site : Site) (r : Redis) (req : Request) where
  open site use {platform, conf}

  module _ (rules : Rules) where
    abbrev P : EvaluationResult → Type 0
    P = Judged site r req rules

    gate-Judged :
        (res : EvaluationResult)
        → (BelowThreshold site r req → P res)
        → Ensures P (gate site r req res)
    unfolding gate_challenge_or_escalate
    gate-Judged res h =
        Ensures-bind_from P (unsolved_challenge_count r platform.int req.ip (is_bot site r req)) _
          λ n s e.
            Ensures-if P (ltb n conf.gate.escalation_threshold) _ _
              (λ below. Ensures-pure P res (h (s, n, e, ltb→lt _ _ below)))
              (λ reached.
                Ensures-bind P _ _
                  λ _. Ensures-pure P _ (by_escalation (s, n, e, ltb_false→le _ _ reached) refl))

    gated-Judged :
        (res : EvaluationResult)
        → (Gated site r req res.verdict → P res)
        → Ensures P (gated site r req res)
    gated-Judged res h =
        Ensures-if P (is_challenged res.verdict) _ _
          (λ c. gate-Judged res (λ below. h (λ _. below)))
          (λ c. Ensures-pure P res (h (λ d. absurd (false≢true (sym c ∙ d)))))

    scores-Judged : Unsuspected site r req rules → Ensures P (by_scores site r req)
    unfolding by_scores judge_score
    scores-Judged clear = Ensures-bind P (fingerprint_score site r req req.meta) _ λ fp_score.
        Ensures-bind P (user_agent_score site r req) _ λ ua_score.
          let total : ℕ = ua_score + score_path platform conf.scores req.path + fp_score in
          Ensures-if P (ltb 0 total) (gated site r req (scored site r req total)) _
            (λ positive.
              gated-Judged (scored site r req total)
                (λ g. by_score total clear (ltb→lt 0 total positive) (omega arith) g refl))
            (λ zero_score.
              let none_left : total ≤ 0 = ltb_false→le 0 total zero_score in
              Ensures-pure P _ (by_default clear (omega arith) refl))

    referer-Judged : Unsuspected site r req rules → Ensures P (by_referer site r req)
    unfolding by_referer
    referer-Judged clear =
        Ensures-if P
          (conf.challenge_no_referer && is_empty req.referer && not (is_referer_exempt site r req))
          _ _ (λ asked. gate-Judged _ (λ below. by_no_referer clear (both _ _ _ asked) below refl))
          (λ _. scores-Judged clear)

    rate-Judged : Unmatched site r req rules → Ensures P (by_rate site r req)
    unfolding by_rate judge_rate
    rate-Judged unmatched = Ensures-bind_from P _ _ λ rate s e.
        Ensures-if P rate.exceeded _ _
          (λ over. Ensures-pure P _ (by_rate_limit rate unmatched (s, e, over) refl))
          (λ within. referer-Judged (unmatched, rate, (s, e, within)))

    apply_block-Judged :
        (rule : BlockRule) (o : Option Text)
        → first_passing (block_candidate platform r req.now req.ip req.user_agent) rules.block_rules
          ≡ some rule
        → platform.uuid rule.id ≡ o
        → Ensures P (apply_block_rule site r req rule o)
    unfolding apply_block_rule
    apply_block-Judged rule none first named = Ensures-raise P
    apply_block-Judged rule (some id) first named =
        gated-Judged _ (λ g. by_block_rule rule id first named g refl)

    judge_block-Judged :
        (found : Option BlockRule)
        → first_passing (block_candidate platform r req.now req.ip req.user_agent) rules.block_rules
          ≡ found
        → Ensures P (judge_block_rule site r req found)
    unfolding judge_block_rule
    judge_block-Judged none first = rate-Judged first
    judge_block-Judged (some rule) first = apply_block-Judged rule _ first refl

    block_rules-Judged : Ensures P (by_block_rules site r req rules)
    unfolding by_block_rules
    block_rules-Judged = Ensures-bind_from P _ _ λ found s e. judge_block-Judged found (
        let scan =
          check_block_rules_lem platform r req.now req.ip req.user_agent rules.block_rules s in
        cc)

    attribute-Judged :
        (value : Text) (o : Option Text)
        → Recorded site r req value
        → ((value =ᵗ text "1" ≡ true) × (o ≡ none)) ⊎ (platform.uuid value ≡ o)
        → Ensures P (attribute_block site r req value o)
    unfolding attribute_block
    attribute-Judged value none recorded (inl (legacy, _)) =
        Ensures-pure P _ (by_unnamed_record value recorded (inl legacy) refl)
    attribute-Judged value none recorded (inr malformed) =
        Ensures-pure P _ (by_unnamed_record value recorded (inr malformed) refl)
    attribute-Judged value (some id) recorded (inl (_, unnamed)) =
        absurd (let contradiction : ⊥ = cc in contradiction)
    attribute-Judged value (some id) recorded (inr named) =
        Ensures-bind P (record_rule_hit r value) _
          λ _. Ensures-pure P _ (by_record value id recorded named refl)

    Recorded-Judged :
        (value : Text)
        → Recorded site r req value
        → Ensures P (
            attribute_block site r req value
              (if value =ᵗ text "1" then none else platform.uuid value))
    Recorded-Judged value recorded = elim (Bool-cases (value =ᵗ text "1")) [
      | inl legacy ↦ rw legacy (attribute-Judged value none recorded (inl (legacy, refl)))
      | inr other ↦ rw other (attribute-Judged value (platform.uuid value) recorded (inr refl))
    ]

    cached-Judged :
        (o : Option Text) (s : r.Server)
        → (r.get (blocked_key req.ip) s).0 ≡ some o
        → Ensures P (judge_cached site r req rules o)
    unfolding judge_cached
    cached-Judged none s e = block_rules-Judged
    cached-Judged (some value) s e =
        Ensures-if P (is_empty value) _ _ (λ _. block_rules-Judged)
          (λ set. Recorded-Judged value (s, e, set))

    blocked_cache-Judged : Ensures P (by_blocked_cache site r req rules)
    unfolding by_blocked_cache
    blocked_cache-Judged = Ensures-bind_from P _ _ cached-Judged

    apply_allow-Judged :
        (rule : AllowRule) (o : Option Text)
        → In rule rules.allow_rules
        → Allows platform r req.now req.ip req.user_agent conf.rdns_failure_ttl rule
        → platform.uuid rule.id ≡ o
        → Ensures P (apply_allow_rule site r req o)
    unfolding apply_allow_rule
    apply_allow-Judged rule none member allows named = Ensures-raise P
    apply_allow-Judged rule (some id) member allows named =
        Ensures-pure P _ (by_allow_rule rule id member allows named refl)

    judge_allow-Judged :
        (found : Option AllowRule)
        → ((rule : AllowRule)
            → found ≡ some rule
            → In rule rules.allow_rules
              × Allows platform r req.now req.ip req.user_agent conf.rdns_failure_ttl rule)
        → Ensures P (judge_allow_rule site r req rules found)
    unfolding judge_allow_rule
    judge_allow-Judged none sound = blocked_cache-Judged
    judge_allow-Judged (some rule) sound =
        let (member, allows) = sound rule refl in apply_allow-Judged rule _ member allows refl

    rules-Judged :
        (version : ℕ)
        → Ensures P (by_rules site r req (record { version = version; rules = rules }))
    unfolding by_rules
    rules-Judged version = Ensures-bind_from P _ _ λ found s e.
        judge_allow-Judged found (λ rule same.
          check_allow_rules_sound platform r req.now req.ip req.user_agent conf.rdns_failure_ttl
            rules.allow_rules rule s (e ∙ ap some same))

  loaded-Judged :
      (o : Option RuleCache) (e : Engine r) (res : EvaluationResult)
      → (continue o (λ cache. redis r (by_rules site r req cache)) e).0 ≡ some res
      → (cache : RuleCache) × (o ≡ some cache) × Judged site r req cache.rules res
  loaded-Judged none e res h = absurd (let no : ⊥ = cc in no)
  loaded-Judged (some cache) e res h =
      (cache, refl, (rules-Judged cache.rules cache.version).at e.server res h)

  -- Every result of an evaluation that returns one is reached by the loaded rules in a way of
  -- `Ways.Judged`: an allow rule that holds; a record that the address is blocked; the first block
  -- rule that matches; a passed rate limit where no block rule matches; or, where no limit is passed
  -- either, a missing referer, a score above 0 that includes the path's, or none of them. Each
  -- challenge was below the gate's threshold, and a block in a challenge's place was at it.
  pub evaluate_request-Judged :
      (e : Engine r) (res : EvaluationResult)
      → (evaluate_request site r req e).0 ≡ some res
      → (cache : RuleCache) × ((load_rule_cache r platform.show site.encode site.decode
            site.read_rules platform.int e).0
          ≡ some cache)
        × Judged site r req cache.rules res
  unfolding evaluate_request
  evaluate_request-Judged e res h = loaded-Judged _ _ res h
