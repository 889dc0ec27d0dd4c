-- ===== src/Forms/Protection/Returns.antt =====
-- When the chain returns, and when it raises.
use django_waf.Base.{
  ℕ, ◌≡◌, ◌≢◌, refl, true, false, Option, none, some, List, [], ◌∷◌, ◌++◌, Text, is_empty,
}
use django_waf.Exec.Total.{Total, Total-pure, Total-if, Total-try, Total-return_found, Total-bind}
use django_waf.Redis.{Redis}
use django_waf.Forms.Tokens.{
  Codec, TokenPayload, Verified, verified, value_error, type_error, verify_token,
}
use django_waf.Forms.Context.{Outcome, passed, FormRequest, FormConf}
use django_waf.Forms.Defences.{
  DefenceName, render_token, honeypot, time_trap, ua_consistency, js_touch, credential_throttle,
  signup_velocity, pow_gate, defence_evaluate, render_token_evaluate,
}
use django_waf.Forms.Protection.{
  FormProtection, names_for, submitted_token, parsed, parse_submitted_payload, run_defence,
  payload_after, result_of, blocked_now, chain, evaluate,
}

module _ (conf : FormConf) (form : FormProtection) (r : Redis) (c : Codec) (int : Text → Option ℕ)
    (key : Text) (now : ℕ) (request : FormRequest) (submitted_data : List (Text × Text)) where
  parsed-Total :
      (v : Verified TokenPayload)
      → v ≢ type_error
      → Total (parsed conf form r c int key now request submitted_data v)
  unfolding parsed
  parsed-Total value_error h = Total-pure none
  parsed-Total (verified payload) h = Total-pure (some payload)
  parsed-Total type_error h = absurd (h refl)

  module _
      (h : verify_token c key (submitted_token conf form r c int key now request submitted_data)
        ≢ type_error) where
    payload_after-Total :
        (d : DefenceName) (payload : Option TokenPayload)
        → Total (payload_after conf form r c int key now request submitted_data d payload)
    unfolding payload_after parse_submitted_payload
    payload_after-Total render_token none =
        Total-if (is_empty (submitted_token conf form r c int key now request submitted_data)) _ _
          (Total-pure none) (parsed-Total _ h)
    payload_after-Total render_token (some payload) = Total-pure (some payload)
    payload_after-Total honeypot payload = Total-pure payload
    payload_after-Total time_trap payload = Total-pure payload
    payload_after-Total ua_consistency payload = Total-pure payload
    payload_after-Total js_touch payload = Total-pure payload
    payload_after-Total credential_throttle payload = Total-pure payload
    payload_after-Total signup_velocity payload = Total-pure payload
    payload_after-Total pow_gate payload = Total-pure payload

    chain-Total :
        (names : List DefenceName) (payload : Option TokenPayload) (outcomes : List Outcome)
        → Total (chain conf form r c int key now request submitted_data names payload outcomes)
    unfolding chain run_defence
    chain-Total [] payload outcomes = Total-pure _
    chain-Total (d ∷ names) payload outcomes =
        Total-bind (run_defence conf form r c int key now request submitted_data d payload) _
          (Total-try _ passed)
          λ o. Total-return_found _ _ (
            Total-bind (payload_after conf form r c int key now request submitted_data d payload) _
              (payload_after-Total d payload)
              λ payload'. chain-Total names payload' (outcomes ++ o ∷ []))

    -- Whatever the defences and Redis raise, an evaluation returns a result, unless the submitted
    -- token is one on which `verify_token` raises a TypeError.
    pub evaluate-Total : Total (evaluate conf form r c int key now request submitted_data)
    unfolding evaluate
    evaluate-Total =
        Total-if conf.protection_enabled _ _ (chain-Total (names_for conf form request) none [])
          (Total-pure _)

  -- Where protection is enabled, the form's first defence for the request is the render token and a
  -- token is submitted on which `verify_token` raises a TypeError, the evaluation itself raises,
  -- whatever Redis holds: the defence's own exception counts as passed, the second parse's does not.
  pub evaluate-raises :
      (names : List DefenceName) (s : r.Server)
      → conf.protection_enabled ≡ true
      → names_for conf form request ≡ render_token ∷ names
      → is_empty (submitted_token conf form r c int key now request submitted_data) ≡ false
      → verify_token c key (submitted_token conf form r c int key now request submitted_data)
        ≡ type_error
      → (evaluate conf form r c int key now request submitted_data s).0 ≡ none
  unfolding evaluate chain run_defence payload_after parse_submitted_payload parsed blocked_now
      result_of defence_evaluate render_token_evaluate
  evaluate-raises names s on first given raises = simp (on, first, given, raises) refl
