-- ===== src/Forms/Protection/Payload.antt =====
-- The token's payload in the result of the chain.
use django_waf.Base.{
  ℕ, ◌≡◌, refl, sym, ap, true, false, Option, none, some, List, [], ◌∷◌, ◌++◌, Text, is_empty,
  Bool-cases, inl, inr,
}
use mathlib.Core.Path.{subst}
use django_waf.Exec.{pure}
use django_waf.Exec.Ensures.{
  Ensures, Ensures-pure, Ensures-if, Ensures-bind, Ensures-bind_of, Ensures-return_found,
}
use django_waf.Redis.{Redis}
use django_waf.Forms.Tokens.{Codec, TokenPayload, verified, verify_token}
use django_waf.Forms.Context.{Outcome, is_block, FormRequest, FormConf}
use django_waf.Forms.Defences.{
  DefenceName, render_token, honeypot, time_trap, ua_consistency, js_touch, credential_throttle,
  signup_velocity, pow_gate,
}
use django_waf.Forms.Protection.{
  passed_form, blocked_form, FormEvaluationResult, FormProtection, names_for, submitted_token,
  parsed, parse_submitted_payload, run_defence, payload_after, result_of, blocked_now, chain,
  evaluate,
}

module _ (conf : FormConf) (form : FormProtection) (r : Redis) (c : Codec) (int : Text → Option ℕ)
    (key : Text) (now : ℕ) (request : FormRequest) (submitted_data : List (Text × Text))
    (p : TokenPayload) where
  abbrev IsP : Option TokenPayload → Type 0
  IsP o = o ≡ some p

  abbrev HasP : FormEvaluationResult → Type 0
  HasP res = res.verdict ≡ passed_form → res.token_payload ≡ some p

  pub payload_after-some :
      (d : DefenceName)
      → payload_after conf form r c int key now request submitted_data d (some p) ≡ pure (some p)
  unfolding payload_after
  payload_after-some render_token = refl
  payload_after-some honeypot = refl
  payload_after-some time_trap = refl
  payload_after-some ua_consistency = refl
  payload_after-some js_touch = refl
  payload_after-some credential_throttle = refl
  payload_after-some signup_velocity = refl
  payload_after-some pow_gate = refl

  payload_after-IsP :
      (d : DefenceName)
      → Ensures IsP (payload_after conf form r c int key now request submitted_data d (some p))
  payload_after-IsP d = rw (payload_after-some d) (Ensures-pure IsP (some p) refl)

  blocked_now-HasP :
      (payload : Option TokenPayload) (outcomes : List Outcome) (o : Outcome)
      → (res : FormEvaluationResult)
      → blocked_now conf form r c int key now request submitted_data payload outcomes o ≡ some res
      → HasP res
  unfolding blocked_now result_of
  blocked_now-HasP payload outcomes o res e passes = elim (Bool-cases (is_block o)) [
    | inr b ↦ absurd (let no : ⊥ = cc (rw b at e) in no)
    | inl b ↦
        let same : result_of conf form r c int key now request submitted_data blocked_form payload
              outcomes
            ≡ res =
          cc (rw b at e) in
        let verdicts : blocked_form ≡ res.verdict = ap (λ q. q.verdict) same in
        absurd (let no : ⊥ = cc in no)
  ]

  chain-HasP :
      (names : List DefenceName) (outcomes : List Outcome)
      → Ensures HasP
          (chain conf form r c int key now request submitted_data names (some p) outcomes)
  unfolding chain result_of
  chain-HasP [] outcomes = Ensures-pure HasP _ (λ _. refl)
  chain-HasP (d ∷ names) outcomes =
      Ensures-bind HasP (run_defence conf form r c int key now request submitted_data d (some p)) _
        λ o.
          Ensures-return_found HasP _ _
            (Ensures-bind_of HasP IsP
              (payload_after conf form r c int key now request submitted_data d (some p)) _
              (payload_after-IsP d)
              λ payload same.
                subst
                  (λ q. Ensures HasP (
                    chain conf form r c int key now request submitted_data names q
                      (outcomes ++ o ∷ [])))
                  (sym same) (chain-HasP names (outcomes ++ o ∷ [])))
            (blocked_now-HasP (some p) (outcomes ++ o ∷ []) o)

  pub first-some :
      is_empty (submitted_token conf form r c int key now request submitted_data) ≡ false
      → verify_token c key (submitted_token conf form r c int key now request submitted_data)
        ≡ verified p
      → payload_after conf form r c int key now request submitted_data render_token none
        ≡ pure (some p)
  unfolding payload_after parse_submitted_payload parsed
  first-some given valid = simp (given, valid) refl

  -- If the chain begins with the render token and the submitted token verifies to a payload, then
  -- the result of an evaluation that passes carries that payload.
  pub evaluate-HasP :
      (names : List DefenceName)
      → conf.protection_enabled ≡ true
      → names_for conf form request ≡ render_token ∷ names
      → is_empty (submitted_token conf form r c int key now request submitted_data) ≡ false
      → verify_token c key (submitted_token conf form r c int key now request submitted_data)
        ≡ verified p
      → Ensures HasP (evaluate conf form r c int key now request submitted_data)
  unfolding evaluate chain
  evaluate-HasP names on first given valid =
      Ensures-if HasP conf.protection_enabled _ _
        (λ _.
          subst
            (λ ns. Ensures HasP (chain conf form r c int key now request submitted_data ns none []))
            (sym first)
            (Ensures-bind HasP
              (run_defence conf form r c int key now request submitted_data render_token none) _
              λ o.
                Ensures-return_found HasP _ _
                  (Ensures-bind_of HasP IsP
                    (payload_after conf form r c int key now request submitted_data render_token
                      none)
                    _ (rw (first-some given valid) (Ensures-pure IsP (some p) refl))
                    λ payload same.
                      subst
                        (λ q.
                          Ensures HasP (
                            chain conf form r c int key now request submitted_data names q
                              (o ∷ [])))
                        (sym same) (chain-HasP names (o ∷ [])))
                  (blocked_now-HasP none (o ∷ []) o)))
        (λ off. absurd (let no : ⊥ = cc in no))
