-- ===== src/Middleware/Call/Laws.antt =====
-- What the middleware lets through to the view.
use django_waf.Base.{
  ℕ, ◌≡◌, ◌⊎◌, refl, sym, ◌∙◌, inl, inr, true, false, not, Option, none, some, Text, is_empty, any,
  ◌=ᵗ◌, arith,
}
use mathlib.Core.Bool.{false≢true}
use mathlib.Core.Path.{subst}
use django_waf.Exec.{Exec, pure, return_found}
use django_waf.Exec.Ensures.{Ensures, Ensures-pure, Ensures-bind, Ensures-bind_of}
use django_waf.Exec.EnsuresAt.{
  EnsuresAt, EnsuresAt-pure, EnsuresAt-if, EnsuresAt-bind, Ensures-EnsuresAt,
}
use django_waf.Redis.{Redis}
use django_waf.Rules.{block, blocked, EvaluationResult, plain_result}
use django_waf.Rules.Evaluate.{Site, evaluate_request}
use django_waf.Middleware.{Response, HttpRequest, MiddlewareConf, Traffic, get_response, is_view}
use django_waf.Middleware.SitePassword.{check_site_password}
use django_waf.Middleware.SitePassword.Laws.{Unlocked, Gated, check_site_password-Gated}
use django_waf.Middleware.Verdicts.{build_block_response, handle_verdict, log_request, status_code}
use django_waf.Middleware.Verdicts.Laws.{Harmless, handle_verdict-Viewed, block_response-is_view}
use django_waf.Middleware.Call.{
  call, is_exempt, has_valid_pass, is_staff_user, is_method_refused, after_password, after_method,
  after_country, judge_traffic, evaluated, judge_outcome, finish, check_country_block,
  block_country, log_country_block,
}

module _ (site : Site) (r : Redis) (conf : MiddlewareConf) (view_status : ℕ) (http : HttpRequest)
    (t : Traffic r) where
  open http use {request}

  -- What spares a request a block of the rule engine, whose process and server are as the request
  -- found them.
  pub data Cleared : Type 0 where
    no_address : is_empty request.ip ≡ true → Cleared
    staff : is_staff_user http ≡ true → Cleared
    no_redis : http.has_redis ≡ false → Cleared
    solved : has_valid_pass site r conf view_status http ≡ true → Cleared
    failed_open : (evaluate_request site r request t.engine).0 ≡ none → Cleared
    judged :
        (result : EvaluationResult)
        → (evaluate_request site r request t.engine).0 ≡ some result
        → Harmless r conf http result.verdict
        → Cleared

  -- The reasons to let a request through.
  abbrev pub LetThrough : Type 0
  LetThrough =
      (is_exempt site r conf view_status http ≡ true) ⊎ (Unlocked site r conf http × Cleared)

  abbrev Viewed : Type 0 → Response → Type 0
  Viewed Reason response = is_view response ≡ true → Reason

  -- What follows shows the view only for the reason.
  abbrev Shows : Type 0 → Exec (Traffic r) Response → Type 0
  Shows Reason = EnsuresAt t (λ response after. Viewed Reason response)

  reasoned : (Reason : Type 0) → Reason → Shows Reason (pure (get_response http))
  reasoned Reason reason = EnsuresAt-pure t _ (get_response http) (λ _. reason)

  -- A gate that lets a request go on leaves everything as it was, and else answers in the view's
  -- place.
  abbrev Gates : Option Response → Traffic r → Type 0
  Gates none s = s ≡ t
  Gates (some response) s = is_view response ≡ false

  found-Shows :
      (Reason : Type 0) (rest : Exec (Traffic r) Response) (o : Option Response) (s : Traffic r)
      → Gates o s
      → Shows Reason rest
      → EnsuresAt s (λ response after. Viewed Reason response) (return_found rest o)
  found-Shows Reason rest none s same k =
      subst (λ u. EnsuresAt u (λ response after. Viewed Reason response) rest) (sym same) k
  found-Shows Reason rest (some response) s g k =
      EnsuresAt-pure s _ response (λ viewed. absurd (false≢true (sym g ∙ viewed)))

  finish-Viewed :
      (result : EvaluationResult)
      → Ensures
          (Viewed (Harmless r conf http result.verdict))
          (finish site r conf view_status http result)
  unfolding finish
  finish-Viewed result =
      Ensures-bind_of _ (Viewed (Harmless r conf http result.verdict))
        (handle_verdict r conf http result) _ (handle_verdict-Viewed r conf http result)
        (λ response harmless.
          Ensures-bind _ (log_request r http result (status_code view_status response)) _
            (λ _. Ensures-pure _ response harmless))

  outcome-Viewed :
      (o : Option EvaluationResult)
      → (evaluate_request site r request t.engine).0 ≡ o
      → Ensures (Viewed Cleared) (judge_outcome site r conf view_status http o)
  unfolding judge_outcome
  outcome-Viewed none e = Ensures-pure _ (get_response http) (λ _. failed_open e)
  outcome-Viewed (some result) e = record {
    at = λ s response h viewed. judged result e ((finish-Viewed result).at s response h viewed);
  }

  judge_traffic-Shows : Shows Cleared (judge_traffic site r conf view_status http)
  unfolding judge_traffic
  judge_traffic-Shows =
      EnsuresAt-if t _ (has_valid_pass site r conf view_status http) _ _
        (λ valid. reasoned Cleared (solved valid))
        (λ _.
          EnsuresAt-bind _ t (λ o s. (evaluate_request site r request t.engine).0 ≡ o)
            (evaluated site r conf view_status http) _ (record { at = λ o e. let g = e in cc })
            (λ o s e. Ensures-EnsuresAt s _ _ (outcome-Viewed o e)))

  after_country-Shows : Shows Cleared (after_country site r conf view_status http)
  unfolding after_country
  after_country-Shows =
      EnsuresAt-if t _ (is_staff_user http) _ _ (λ trusted. reasoned Cleared (staff trusted))
        (λ _.
          EnsuresAt-if t _ (not http.has_redis) _ _
            (λ down. reasoned Cleared (no_redis (ground arith))) (λ _. judge_traffic-Shows))

  block_country-Gates :
      (country : Text) → EnsuresAt t Gates (block_country site r conf view_status http country)
  unfolding block_country
  block_country-Gates country =
      EnsuresAt-if t _ (is_empty country) _ _ (λ _. EnsuresAt-pure t _ none refl)
        (λ _.
          EnsuresAt-if t _
            (not (
              any (λ c. site.platform.upper c =ᵗ site.platform.upper country)
                conf.blocked_countries))
            _ _ (λ _. EnsuresAt-pure t _ none refl)
            (λ _.
              EnsuresAt-bind _ t (λ _ s. Unit {0})
                (log_country_block site r conf view_status http (plain_result blocked (some block)))
                _ (record { at = λ _ _. tt })
                (λ _ s _.
                  EnsuresAt-pure s _
                    (some (build_block_response r conf http (plain_result blocked (some block))))
                    (block_response-is_view r conf http _))))

  country-Gates :
      (o : Option Text) → EnsuresAt t Gates (check_country_block site r conf view_status http o)
  unfolding check_country_block
  country-Gates none = EnsuresAt-pure t _ none refl
  country-Gates (some country) = block_country-Gates country

  after_method-Shows : Shows Cleared (after_method site r conf view_status http)
  unfolding after_method
  after_method-Shows =
      EnsuresAt-if t _ (is_empty request.ip) _ _ (λ missing. reasoned Cleared (no_address missing))
        (λ _.
          EnsuresAt-bind _ t Gates (check_country_block site r conf view_status http http.country) _
            (country-Gates http.country) (λ o s g. found-Shows Cleared _ o s g after_country-Shows))

  after_password-Shows : Shows Cleared (after_password site r conf view_status http)
  unfolding after_password
  after_password-Shows =
      EnsuresAt-if t _ (is_method_refused conf.allowed_methods request.method) _ _
        (λ _. EnsuresAt-pure t _ _ (λ viewed. absurd (false≢true viewed))) (λ _. after_method-Shows)

  unlocked-Shows :
      Unlocked site r conf http → Shows LetThrough (after_password site r conf view_status http)
  unlocked-Shows unlocked = record {
    at = λ response h viewed. inr (unlocked, after_password-Shows.at response h viewed);
  }

  Gated-Shows :
      (o : Option Response) (s : Traffic r)
      → Gated site r conf http t (some o, s)
      → EnsuresAt s
          (λ response after. Viewed LetThrough response)
          (return_found (after_password site r conf view_status http) o)
  Gated-Shows none s (unlocked, same) =
      found-Shows LetThrough _ none s same (unlocked-Shows unlocked)
  Gated-Shows (some response) s page =
      EnsuresAt-pure s _ response (λ viewed. absurd (false≢true (sym page.no_view ∙ viewed)))

  password-Gated :
      (o : Option Response)
      → (check_site_password site r conf http t).0 ≡ some o
      → Gated site r conf http t (some o, (check_site_password site r conf http t).1)
  password-Gated o e =
      subst (λ x. Gated site r conf http t (x, (check_site_password site r conf http t).1)) e
        (check_site_password-Gated site r conf http t)

  call-Shows : Shows LetThrough (call site r conf view_status http)
  unfolding call
  call-Shows =
      EnsuresAt-if t _ (is_exempt site r conf view_status http) _ _
        (λ exempt. reasoned LetThrough (inl exempt))
        (λ _.
          EnsuresAt-bind _ t (λ o s. Gated site r conf http t (some o, s))
            (check_site_password site r conf http) _ (record { at = password-Gated })
            (λ o s g. Gated-Shows o s g))

  -- A request reaches the view only if the middleware is off or the path or host is exempt; or if
  -- the site's password is not asked for and the request has no address, comes from staff, finds no
  -- Redis, has a valid pass cookie, or the evaluation of this request, with the process and the
  -- server as the request found them, raises or gives a verdict that lets it through: ALLOWED,
  -- PASSED, LOGGED, or CHALLENGED with no challenge page to go to or on the challenge page. Where
  -- the evaluation says BLOCKED or THROTTLED and nothing spares the request, it does not reach the
  -- view, whatever the operator's handlers do.
  pub call-LetThrough :
      (response : Response)
      → (call site r conf view_status http t).0 ≡ some response
      → is_view response ≡ true
      → LetThrough
  call-LetThrough response h viewed = call-Shows.at response h viewed
