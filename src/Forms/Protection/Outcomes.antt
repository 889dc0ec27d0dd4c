-- ===== src/Forms/Protection/Outcomes.antt =====
-- What the outcomes in a result look like.
use django_waf.Base.{
  ℕ, refl, Option, none, List, [], ◌∷◌, ◌++◌, Text, All, All-append, Bool-cases, inl, inr,
}
use django_waf.Exec.{Exec, pure}
use django_waf.Exec.Ensures.{
  Ensures, Ensures-pure, Ensures-if, Ensures-try, Ensures-bind, Ensures-bind_of,
}
use django_waf.Redis.{Redis}
use django_waf.Forms.Tokens.{Codec, TokenPayload}
use django_waf.Forms.Context.{Outcome, passed, is_block, FormRequest, FormConf}
use django_waf.Forms.Defences.{DefenceName, defence_evaluate}
use django_waf.Forms.Defences.Laws.{WellFormed, IsOf-WellFormed, defence_evaluate-IsOf}
use django_waf.Forms.Protection.{
  blocked_form, FormEvaluationResult, FormProtection, names_for, context_for, run_defence,
  payload_after, result_of, blocked_now, chain, evaluate,
}

module _ (conf : FormConf) (form : FormProtection) (r : Redis) (c : Codec) (int : Text → Option ℕ)
    (key : Text) (now : ℕ) (request : FormRequest) (submitted_data : List (Text × Text)) where
  abbrev AllWellFormed : FormEvaluationResult → Type 0
  AllWellFormed res = All WellFormed res.outcomes

  run-WellFormed :
      (d : DefenceName) (payload : Option TokenPayload)
      → Ensures WellFormed (run_defence conf form r c int key now request submitted_data d payload)
  unfolding run_defence
  run-WellFormed d payload =
      let ran : Exec r.Server Outcome =
        defence_evaluate r c int key conf now
          (context_for conf form r c int key now request submitted_data payload) d in
      Ensures-try WellFormed ran (pure passed)
        (record {
          at = λ s o e. IsOf-WellFormed d o (
              (defence_evaluate-IsOf r c int key conf now
                  (context_for conf form r c int key now request submitted_data payload) d).at
                s o e);
        })
        (Ensures-pure WellFormed passed (λ _. refl, λ e. absurd (let no : ⊥ = cc in no)))

  chain-WellFormed :
      (names : List DefenceName) (payload : Option TokenPayload) (outcomes : List Outcome)
      → All WellFormed outcomes
      → Ensures AllWellFormed
          (chain conf form r c int key now request submitted_data names payload outcomes)
  unfolding chain blocked_now result_of
  chain-WellFormed [] payload outcomes hs = Ensures-pure AllWellFormed _ hs
  chain-WellFormed (d ∷ names) payload outcomes hs =
      Ensures-bind_of AllWellFormed WellFormed
        (run_defence conf form r c int key now request submitted_data d payload) _
        (run-WellFormed d payload)
        λ o w. elim (Bool-cases (is_block o)) [
          | inl b ↦ rw b (
              Ensures-pure AllWellFormed
                (result_of conf form r c int key now request submitted_data blocked_form payload
                  (outcomes ++ o ∷ []))
                (All-append WellFormed outcomes (o ∷ []) hs (w, tt)))
          | inr b ↦ rw b (
              Ensures-bind AllWellFormed
                (payload_after conf form r c int key now request submitted_data d payload) _
                λ payload'.
                  chain-WellFormed names payload' (outcomes ++ o ∷ [])
                    (All-append WellFormed outcomes (o ∷ []) hs (w, tt)))
        ]

  pub evaluate-AllWellFormed :
      Ensures AllWellFormed (evaluate conf form r c int key now request submitted_data)
  unfolding evaluate
  evaluate-AllWellFormed =
      Ensures-if AllWellFormed conf.protection_enabled _ _
        (λ _. chain-WellFormed (names_for conf form request) none [] tt)
        (λ _. Ensures-pure AllWellFormed _ tt)
