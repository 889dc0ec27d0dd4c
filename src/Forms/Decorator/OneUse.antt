-- ===== src/Forms/Decorator/OneUse.antt =====
-- A render token lets one submission pass.
use django_waf.Base.{
  ℕ, ◌+◌, ◌*◌, ◌<◌, ◌≡◌, refl, ◌∙◌, Bool, true, false, Option, some, List, ◌∷◌, Text, get_or, ltb,
  lt→ltb, is_empty, Bool-cases, inl, inr,
}
use django_waf.Exec.{Exec}
use django_waf.Redis.{Redis}
use django_waf.Redis.Strings.{KeyLaws}
use django_waf.RateLimiter.{second}
use django_waf.Forms.Tokens.{Codec, TokenPayload, verified, verify_token}
use django_waf.Forms.Context.{Outcome, FormConf}
use django_waf.Forms.Services.{marker_key, marker_exists, consume_marker}
use django_waf.Forms.Defences.{DefenceName, render_token, defence_evaluate, render_token_evaluate}
use django_waf.Forms.Protection.{
  FormVerdict, passed_form, FormEvaluationResult, FormProtection, names_for, submitted_token,
  evaluate, consume_token_marker,
}
use django_waf.Forms.Protection.Payload.{evaluate-HasP}
use django_waf.Forms.Replay.{ReplayCodec}
use django_waf.Forms.Decorator.{
  QueryDict, scalarise_submitted_data, PostRequest, rejected, DecoratorConf, FormWorld,
  consume_if_passed, run_view, dispatch_verdict, evaluate_post, log_result, handle_post,
}

module _ (r : Redis) (c : Codec) (rc : ReplayCodec) (int : Text → Option ℕ) (key : Text)
    (conf : FormConf) (dconf : DecoratorConf) (form : FormProtection)
    (view : QueryDict → Exec (FormWorld r) (Unit {0})) (l : KeyLaws r) where
  abbrev pub token_of : PostRequest → ℕ → Text
  token_of req now =
      submitted_token conf form r c int key now req.request (scalarise_submitted_data req.post)

  abbrev is_expired : PostRequest → TokenPayload → ℕ → Bool
  is_expired req p now =
      ltb (p.render_time + get_or form.per_form_config.token_ttl conf.token_ttl * second) now

  -- Once the marker is gone, the token is refused after the grace of five seconds.
  without_marker :
      (req : PostRequest) (names : List DefenceName) (p : TokenPayload) (now : ℕ) (fresh_key : Text)
      (w : FormWorld r)
      → conf.protection_enabled ≡ true
      → names_for conf form req.request ≡ render_token ∷ names
      → verify_token c key (token_of req now) ≡ verified p
      → p.render_time + 5 * second < now
      → l.present w.server (marker_key p.nonce) ≡ false
      → (handle_post r c rc int key conf dconf form view now fresh_key req w).0 ≡ some rejected
  unfolding handle_post evaluate defence_evaluate render_token_evaluate marker_exists
  without_marker req names p now fresh_key w on first valid late absent =
      elim (Bool-cases (is_empty (token_of req now))) [
        | inl e ↦ simp (on, first, e) refl
        | inr e ↦ elim (Bool-cases (is_expired req p now)) [
          | inl h ↦ simp (on, first, e, valid, h) refl
          | inr h ↦
              simp
                (
                  on,
                  first,
                  e,
                  valid,
                  h,
                  l.exists_answers (marker_key p.nonce) w.server,
                  absent,
                  lt→ltb (p.render_time + 5 * second) now late,
                )
                refl
        ]
      ]

  -- A submission that passed, and what came before it.
  pub record Passed (req : PostRequest) (p : TokenPayload) (now : ℕ) (fresh_key : Text)
      (w : FormWorld r) : Type 0 where
    pub result : FormEvaluationResult
    pub evaluated :
        (evaluate_post r c rc int key conf dconf form view now fresh_key req w).0 ≡ some result
    pub is_passed : result.verdict ≡ passed_form

  consumed_lem :
      (req : PostRequest) (p : TokenPayload) (now : ℕ) (fresh_key : Text) (verdict : FormVerdict)
      (payload : Option TokenPayload) (total_score : ℕ) (outcomes : List Outcome) (w : FormWorld r)
      → verdict ≡ passed_form
      → payload ≡ some p
      → ((u : FormWorld r) → (view req.post u).0 ≡ some tt)
      → l.present
          (dispatch_verdict r c rc int key conf dconf form view now fresh_key req
            (record {
              verdict = verdict;
              total_score = total_score;
              outcomes = outcomes;
              token_payload = payload;
            })
            w).1.server
          (marker_key p.nonce)
        ≡ false
  unfolding dispatch_verdict run_view consume_if_passed consume_token_marker consume_marker
  consumed_lem req p now fresh_key verdict payload total_score outcomes w passes has views = simp (
    passes,
    has,
    views w,
    l.delete_answers (marker_key p.nonce) (view req.post w).1.server,
    l.present-delete (marker_key p.nonce) (view req.post w).1.server,
  )

  after_pass :
      (req : PostRequest) (names : List DefenceName) (p : TokenPayload) (now : ℕ) (fresh_key : Text)
      (w : FormWorld r)
      → conf.protection_enabled ≡ true
      → names_for conf form req.request ≡ render_token ∷ names
      → is_empty (token_of req now) ≡ false
      → verify_token c key (token_of req now) ≡ verified p
      → Passed req p now fresh_key w
      → ((u : FormWorld r) → (view req.post u).0 ≡ some tt)
      → l.present
          (handle_post r c rc int key conf dconf form view now fresh_key req w).1.server
          (marker_key p.nonce)
        ≡ false
  unfolding handle_post
  after_pass req names p now fresh_key w on first given valid passed views =
      let has : passed.result.token_payload ≡ some p =
        (evaluate-HasP conf form r c int key now req.request (scalarise_submitted_data req.post) p
            names on first given valid).at
          w.server passed.result passed.evaluated passed.is_passed in
      rw passed.evaluated (
        consumed_lem req p now fresh_key passed.result.verdict passed.result.token_payload
          passed.result.total_score passed.result.outcomes
          (log_result r c rc int key conf dconf form view now fresh_key req passed.result
            (evaluate_post r c rc int key conf dconf form view now fresh_key req w).1).1
          passed.is_passed has views)

  -- Once a submission with a token that verifies has passed, every submission with the same token
  -- that comes more than five seconds after the form was rendered is rejected, whatever else it has,
  -- as long as nothing writes the token's marker again; provided that protection is enabled, that the
  -- render token is the first defence for both requests, that the view raises nothing on the first
  -- submission, and that EXISTS and DEL answer.
  pub handle_post-one_use :
      (req again : PostRequest) (names names' : List DefenceName) (p : TokenPayload) (now later : ℕ)
      (fresh_key fresh_key' : Text) (w w' : FormWorld r)
      → conf.protection_enabled ≡ true
      → names_for conf form req.request ≡ render_token ∷ names
      → names_for conf form again.request ≡ render_token ∷ names'
      → is_empty (token_of req now) ≡ false
      → verify_token c key (token_of req now) ≡ verified p
      → token_of again later ≡ token_of req now
      → Passed req p now fresh_key w
      → ((u : FormWorld r) → (view req.post u).0 ≡ some tt)
      → p.render_time + 5 * second < later
      → l.present w'.server (marker_key p.nonce)
        ≡ l.present
            (handle_post r c rc int key conf dconf form view now fresh_key req w).1.server
            (marker_key p.nonce)
      → (handle_post r c rc int key conf dconf form view later fresh_key' again w').0
        ≡ some rejected
  handle_post-one_use req again names names' p now later fresh_key fresh_key' w w' on first first'
        given valid same passed views late kept =
      without_marker again names' p later fresh_key' w' on first' (rw same valid) late
        (kept ∙ after_pass req names p now fresh_key w on first given valid passed views)
