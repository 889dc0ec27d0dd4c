-- ===== src/Rules/Evaluate/Laws.antt =====
-- What follows for single verdicts from the ways in which a request gets its verdict.
use django_waf.Base.{
  ℕ, ◌≡◌, refl, sym, ap, ◌∙◌, Bool, true, false, some, In, arith, is_some, is_empty, not, ◌&&◌,
  ◌||◌,
}
use mathlib.Core.Bool.{false≢true}
use mathlib.Core.Path.{subst}
use django_waf.Redis.{Redis}
use django_waf.Rules.{
  RuleAction, block, challenge, throttle, log_only, other_action, Verdict, challenged, throttled,
  passed, AllowRule, EvaluationResult,
}
use django_waf.Rules.RuleCache.{Rules, RuleCache, Engine, load_rule_cache}
use django_waf.Rules.Scan.Laws.{Allows}
use django_waf.Rules.Score.{ScoreConf, action_to_verdict, score_to_verdict}
use django_waf.Rules.Evaluate.{Site, Request, evaluate_request, is_challenged}
use django_waf.Rules.Evaluate.Ways.{
  BelowThreshold, Judged, by_allow_rule, by_escalation, by_unnamed_record, by_record, by_block_rule,
  by_rate_limit, by_no_referer, by_score, by_default,
}
use django_waf.Rules.Evaluate.Judged.{evaluate_request-Judged}

action_to_verdict-passed : (action : RuleAction) → action_to_verdict action ≡ passed → ⊥
unfolding action_to_verdict
action_to_verdict-passed block h = cc
action_to_verdict-passed challenge h = cc
action_to_verdict-passed throttle h = cc
action_to_verdict-passed log_only h = cc
action_to_verdict-passed other_action h = cc

score_to_verdict-passed :
    (conf : ScoreConf) (score : ℕ) → (score_to_verdict conf score).0 ≡ passed → ⊥
unfolding score_to_verdict
score_to_verdict-passed conf score h = ground arith

abbrev is_passed : Verdict → Bool
is_passed passed = true
is_passed _ = false

-- A result of another verdict is not the one that was found.
clash :
    (test : Verdict → Bool) (base res : EvaluationResult) (verdict : Verdict)
    → res ≡ base
    → test base.verdict ≡ false
    → test verdict ≡ true
    → res.verdict ≡ verdict
    → ⊥
clash test base res verdict e fails holds same =
    false≢true (sym fails ∙ ap (λ x. test x.verdict) (sym e) ∙ ap test same ∙ holds)

-- What the fields of a result say of each other.
abbrev pub IsConsistent : EvaluationResult → Type 0
IsConsistent res =
    (is_some res.matched_rule_id ≡ not (is_empty res.matched_rule_type))
    × (is_some res.matched_rule_id && is_some res.anomaly_score ≡ false)
    × (is_some res.retry_after || is_some res.window ≡ true → res.verdict ≡ throttled)

module _ (site : Site) (r : Redis) (req : Request) where
  open site use {platform, conf}

  challenged-Gated :
      (rules : Rules) (res : EvaluationResult)
      → Judged site r req rules res
      → res.verdict ≡ challenged
      → BelowThreshold site r req
  challenged-Gated rules res (by_allow_rule rule id member allows named e) c =
      absurd (clash is_challenged _ res challenged e refl refl c)
  challenged-Gated rules res (by_escalation reached e) c =
      absurd (clash is_challenged _ res challenged e refl refl c)
  challenged-Gated rules res (by_unnamed_record value recorded unnamed e) c =
      absurd (clash is_challenged _ res challenged e refl refl c)
  challenged-Gated rules res (by_record value id recorded named e) c =
      absurd (clash is_challenged _ res challenged e refl refl c)
  challenged-Gated rules res (by_block_rule rule id first named g e) c =
      g (ap is_challenged (sym (ap (λ x. x.verdict) e) ∙ c))
  challenged-Gated rules res (by_rate_limit rate unmatched over e) c =
      absurd (clash is_challenged _ res challenged e refl refl c)
  challenged-Gated rules res (by_no_referer clear asked below e) c = below
  challenged-Gated rules res (by_score total clear positive most g e) c =
      g (ap is_challenged (sym (ap (λ x. x.verdict) e) ∙ c))
  challenged-Gated rules res (by_default clear zero_score e) c =
      absurd (clash is_challenged _ res challenged e refl refl c)

  -- An allow rule of the loaded rules that lets the request through, and the result names it.
  abbrev pub LetThrough : Rules → EvaluationResult → Type 0
  LetThrough rules res =
      (rule : AllowRule) × In rule rules.allow_rules
      × Allows platform r req.now req.ip req.user_agent conf.rdns_failure_ttl rule
      × (platform.uuid rule.id ≡ res.matched_rule_id)

  passed-LetThrough :
      (rules : Rules) (res : EvaluationResult)
      → Judged site r req rules res
      → res.verdict ≡ passed
      → LetThrough rules res
  passed-LetThrough rules res (by_allow_rule rule id member allows named e) c =
      (rule, member, allows, named ∙ sym (ap (λ x. x.matched_rule_id) e))
  passed-LetThrough rules res (by_escalation reached e) c =
      absurd (clash is_passed _ res passed e refl refl c)
  passed-LetThrough rules res (by_unnamed_record value recorded unnamed e) c =
      absurd (clash is_passed _ res passed e refl refl c)
  passed-LetThrough rules res (by_record value id recorded named e) c =
      absurd (clash is_passed _ res passed e refl refl c)
  passed-LetThrough rules res (by_block_rule rule id first named g e) c =
      absurd (action_to_verdict-passed rule.action (sym (ap (λ x. x.verdict) e) ∙ c))
  passed-LetThrough rules res (by_rate_limit rate unmatched over e) c =
      absurd (clash is_passed _ res passed e refl refl c)
  passed-LetThrough rules res (by_no_referer clear asked below e) c =
      absurd (clash is_passed _ res passed e refl refl c)
  passed-LetThrough rules res (by_score total clear positive most g e) c =
      absurd (score_to_verdict-passed conf.scores total (sym (ap (λ x. x.verdict) e) ∙ c))
  passed-LetThrough rules res (by_default clear zero_score e) c =
      absurd (clash is_passed _ res passed e refl refl c)

  Judged-IsConsistent :
      (rules : Rules) (res : EvaluationResult) → Judged site r req rules res → IsConsistent res
  Judged-IsConsistent rules res (by_allow_rule rule id member allows named e) =
      subst IsConsistent (sym e) (refl, refl, λ n. absurd (false≢true n))
  Judged-IsConsistent rules res (by_escalation reached e) =
      subst IsConsistent (sym e) (refl, refl, λ n. absurd (false≢true n))
  Judged-IsConsistent rules res (by_unnamed_record value recorded unnamed e) =
      subst IsConsistent (sym e) (refl, refl, λ n. absurd (false≢true n))
  Judged-IsConsistent rules res (by_record value id recorded named e) =
      subst IsConsistent (sym e) (refl, refl, λ n. absurd (false≢true n))
  Judged-IsConsistent rules res (by_block_rule rule id first named g e) =
      subst IsConsistent (sym e) (refl, refl, λ n. absurd (false≢true n))
  Judged-IsConsistent rules res (by_rate_limit rate unmatched over e) =
      subst IsConsistent (sym e) (refl, refl, λ _. refl)
  Judged-IsConsistent rules res (by_no_referer clear asked below e) =
      subst IsConsistent (sym e) (refl, refl, λ n. absurd (false≢true n))
  Judged-IsConsistent rules res (by_score total clear positive most g e) =
      subst IsConsistent (sym e) (refl, refl, λ n. absurd (false≢true n))
  Judged-IsConsistent rules res (by_default clear zero_score e) =
      subst IsConsistent (sym e) (refl, refl, λ n. absurd (false≢true n))

  -- A request is challenged only if the gate has counted fewer unsolved challenges of its address
  -- than the threshold.
  pub evaluate-challenged :
      (e : Engine r) (res : EvaluationResult)
      → (evaluate_request site r req e).0 ≡ some res
      → res.verdict ≡ challenged
      → BelowThreshold site r req
  evaluate-challenged e res h c =
      let (cache, _, judged) = evaluate_request-Judged site r req e res h in
      challenged-Gated cache.rules res judged c

  -- A request is let through as PASSED only by an allow rule of the loaded rules that has not expired,
  -- matches, and has its host name confirmed if it asks for that; the result names the rule.
  pub evaluate-passed :
      (e : Engine r) (res : EvaluationResult)
      → (evaluate_request site r req e).0 ≡ some res
      → res.verdict ≡ passed
      → (cache : RuleCache) × ((load_rule_cache r platform.show site.encode site.decode
            site.read_rules platform.int e).0
          ≡ some cache)
        × LetThrough cache.rules res
  evaluate-passed e res h c =
      let (cache, loaded, judged) = evaluate_request-Judged site r req e res h in
      (cache, loaded, passed-LetThrough cache.rules res judged c)

  -- In every result a rule has a type exactly if it has an id, no result has both a rule and a score,
  -- and only THROTTLED results have a wait or a window.
  pub evaluate-IsConsistent :
      (e : Engine r) (res : EvaluationResult)
      → (evaluate_request site r req e).0 ≡ some res
      → IsConsistent res
  evaluate-IsConsistent e res h =
      let (cache, _, judged) = evaluate_request-Judged site r req e res h in
      Judged-IsConsistent cache.rules res judged
