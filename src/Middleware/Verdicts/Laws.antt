-- ===== src/Middleware/Verdicts/Laws.antt =====
-- Which verdicts let a request through, and what a block leaves behind.
use django_waf.Base.{
  ◌≡◌, refl, sym, ◌∙◌, true, false, ◌||◌, Option, none, some, ◌++◌, ◌∷◌, Text, text, starts_with,
  get_or,
}
use mathlib.Core.Bool.{false≢true}
use mathlib.Core.Path.{subst}
use django_waf.Exec.Ensures.{Ensures, Ensures-pure, Ensures-if, Ensures-bind}
use django_waf.Exec.Total.{Total, Total-pure, Total-if, Total-bind, Total-try}
use django_waf.Redis.{Redis}
use django_waf.Redis.Strings.{StringLaws}
use django_waf.Rules.{
  Verdict, allowed, blocked, challenged, throttled, passed, logged, EvaluationResult,
}
use django_waf.Rules.Gate.{blocked_key, record_block_verdict}
use django_waf.Middleware.{
  Response, forbidden, Handling, unset, import_error, raised, not_a_response, returned, HttpRequest,
  MiddlewareConf, Traffic, WafSignal, request_blocked, request_throttled, too_many_requests,
  is_view, get_response, redirect,
}
use django_waf.Middleware.Verdicts.{
  respond, build_block_response, build_throttle_response, get_challenge_paths, handle_verdict,
  respond_to, handle_blocked, record_block, handle_challenged, count_challenge, emit,
}

-- No handler of the operator's leads to the view.
respond-is_view :
    (default : Response) (h : Handling)
    → is_view default ≡ false
    → is_view (respond default h) ≡ false
unfolding respond
respond-is_view default unset e = e
respond-is_view default import_error e = e
respond-is_view default raised e = e
respond-is_view default not_a_response e = e
respond-is_view default (returned status body) e = refl

module _ (r : Redis) (conf : MiddlewareConf) (http : HttpRequest) where
  open http use {request}

  -- The client is sent nowhere for its challenge: there is no page, or it is on it.
  abbrev pub Unsent : Option (Text × Text) → Type 0
  Unsent none = Unit
  Unsent (some (challenge_path, verify_path)) =
      starts_with request.path challenge_path || starts_with request.path verify_path ≡ true

  -- The verdicts that let a request through to the view.
  abbrev pub Harmless : Verdict → Type 0
  Harmless allowed = Unit
  Harmless passed = Unit
  Harmless logged = Unit
  Harmless challenged = Unsent (get_challenge_paths conf)
  Harmless blocked = ⊥
  Harmless throttled = ⊥

  abbrev Viewed : Verdict → Response → Type 0
  Viewed verdict response = is_view response ≡ true → Harmless verdict

  pub block_response-is_view :
      (result : EvaluationResult) → is_view (build_block_response r conf http result) ≡ false
  unfolding build_block_response
  block_response-is_view result = respond-is_view forbidden (conf.block_handler result) refl

  throttle_response-is_view :
      (result : EvaluationResult) → is_view (build_throttle_response r conf http result) ≡ false
  unfolding build_throttle_response
  throttle_response-is_view result =
      respond-is_view (too_many_requests (get_or result.retry_after 60))
        (conf.throttle_handler result) refl

  challenged-Viewed :
      (o : Option (Text × Text))
      → Ensures (λ response. is_view response ≡ true → Unsent o) (handle_challenged r conf http o)
  unfolding handle_challenged
  challenged-Viewed none = Ensures-pure _ (get_response http) (λ _. tt)
  challenged-Viewed (some (challenge_path, verify_path)) =
      Ensures-if _ (starts_with request.path challenge_path || starts_with request.path verify_path)
        _ _ (λ on_page. Ensures-pure _ (get_response http) (λ _. on_page))
        (λ _.
          Ensures-bind _ (count_challenge r conf http) _
            λ _. Ensures-pure _ _ (λ viewed. absurd (false≢true viewed)))

  respond_to-Viewed :
      (verdict : Verdict) (result : EvaluationResult)
      → Ensures (Viewed verdict) (respond_to r conf http verdict result)
  unfolding respond_to handle_blocked
  respond_to-Viewed blocked result = Ensures-bind _ (record_block r conf http result) _ λ _.
      Ensures-bind _ (emit r conf http (request_blocked result)) _ λ _.
        Ensures-pure _ (build_block_response r conf http result)
          (λ viewed. absurd (false≢true (sym (block_response-is_view result) ∙ viewed)))
  respond_to-Viewed throttled result =
      Ensures-bind _ (emit r conf http (request_throttled result)) _ λ _.
        Ensures-pure _ (build_throttle_response r conf http result)
          (λ viewed. absurd (false≢true (sym (throttle_response-is_view result) ∙ viewed)))
  respond_to-Viewed challenged result = challenged-Viewed (get_challenge_paths conf)
  respond_to-Viewed allowed result = Ensures-pure _ (get_response http) (λ _. tt)
  respond_to-Viewed passed result = Ensures-pure _ (get_response http) (λ _. tt)
  respond_to-Viewed logged result = Ensures-pure _ (get_response http) (λ _. tt)

  pub handle_verdict-Viewed :
      (result : EvaluationResult)
      → Ensures (Viewed result.verdict) (handle_verdict r conf http result)
  unfolding handle_verdict
  handle_verdict-Viewed result = respond_to-Viewed result.verdict result

  count_challenge-Total : Total (count_challenge r conf http)
  unfolding count_challenge
  count_challenge-Total = Total-try _ tt

  record_block-Total : (result : EvaluationResult) → Total (record_block r conf http result)
  unfolding record_block
  record_block-Total result = Total-try _ tt

  challenged-Total : (o : Option (Text × Text)) → Total (handle_challenged r conf http o)
  unfolding handle_challenged
  challenged-Total none = Total-pure _
  challenged-Total (some (challenge_path, verify_path)) =
      Total-if (starts_with request.path challenge_path || starts_with request.path verify_path) _ _
        (Total-pure (get_response http))
        (Total-bind (count_challenge r conf http) _ count_challenge-Total
          (λ _. Total-pure (redirect (challenge_path ++ text "?next=" ++ request.path))))

  emit-Total : (signal : WafSignal) → Total (emit r conf http signal)
  emit-Total signal = record { at = λ t. (tt, refl) }

  respond_to-Total :
      (verdict : Verdict) (result : EvaluationResult)
      → Total (respond_to r conf http verdict result)
  unfolding respond_to handle_blocked
  respond_to-Total blocked result =
      Total-bind (record_block r conf http result) _ (record_block-Total result) λ _.
        Total-bind (emit r conf http (request_blocked result)) _
          (emit-Total (request_blocked result))
          (λ _. Total-pure (build_block_response r conf http result))
  respond_to-Total throttled result =
      Total-bind (emit r conf http (request_throttled result)) _
        (emit-Total (request_throttled result))
        (λ _. Total-pure (build_throttle_response r conf http result))
  respond_to-Total challenged result = challenged-Total _
  respond_to-Total allowed result = Total-pure _
  respond_to-Total passed result = Total-pure _
  respond_to-Total logged result = Total-pure _

  pub handle_verdict-Total : (result : EvaluationResult) → Total (handle_verdict r conf http result)
  unfolding handle_verdict
  handle_verdict-Total result = respond_to-Total result.verdict result

  -- What a block is answered with, and what it leaves behind.
  abbrev pub Blocks :
      StringLaws r → EvaluationResult → Traffic r → Option Response × Traffic r → Type 0
  Blocks laws result t (response, after) =
      (laws.cell after.engine.server (blocked_key request.ip)
        ≡ some (record { value = get_or result.matched_rule_id (text "1"); ttl = 300 }))
      × (after.signals ≡ request_blocked result ∷ t.signals)
      × (response ≡ some (build_block_response r conf http result))
      × (is_view (build_block_response r conf http result) ≡ false)

  handle_blocked-Blocks :
      (laws : StringLaws r) (result : EvaluationResult) (t : Traffic r)
      → Blocks laws result t (handle_blocked r conf http result t)
  unfolding handle_blocked record_block record_block_verdict
  handle_blocked-Blocks laws result t =
      simp (laws.setex_answers, laws.hincrby_answers, laws.cell-hincrby, laws.cell-setex)
        (refl, refl, refl, block_response-is_view result)

  -- A BLOCKED result leaves in Redis the id of the rule that it names, or "1", for 300 seconds,
  -- whatever the record held before; it sends one signal, and it is answered in the view's place,
  -- whatever the operator's handler does.
  pub handle_verdict-Blocks :
      (laws : StringLaws r) (result : EvaluationResult) (t : Traffic r)
      → result.verdict ≡ blocked
      → Blocks laws result t (handle_verdict r conf http result t)
  unfolding handle_verdict respond_to
  handle_verdict-Blocks laws result t e =
      subst (λ verdict. Blocks laws result t (respond_to r conf http verdict result t)) (sym e)
        (handle_blocked-Blocks laws result t)
