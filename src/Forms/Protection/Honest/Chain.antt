-- ===== src/Forms/Protection/Honest/Chain.antt =====
-- The chain passes an honest submission.
use django_waf.Base.{
  ℕ, ◌<◌, ◌≡◌, ◌≢◌, refl, sym, true, false, Option, none, some, List, [], ◌∷◌, ◌++◌, Text, arith,
  All, All-append,
}
use mathlib.Core.Path.{subst}
use django_waf.Exec.EnsuresAt.{
  EnsuresAt, EnsuresAt-pure, EnsuresAt-if, EnsuresAt-try, EnsuresAt-read, Reads, Reads-try,
}
use django_waf.Redis.{Redis}
use django_waf.Redis.Strings.{ReadLaws}
use django_waf.Forms.Tokens.{Codec, TokenPayload, type_error, verify_token}
use django_waf.Forms.Context.{Outcome, passed, is_block, is_pass, FormRequest, FormConf}
use django_waf.Forms.Defences.{DefenceName, render_token, defence_evaluate}
use django_waf.Forms.Defences.Laws.{Passes}
use django_waf.Forms.Defences.FreshToken.{render_token-Passes}
use django_waf.Forms.Defences.Reading.{defence-Reads}
use django_waf.Forms.Protection.{
  passed_form, FormEvaluationResult, FormProtection, names_for, submitted_token, context_for,
  resolve_verdict, run_defence, result_of, blocked_now, chain, evaluate,
}
use django_waf.Forms.Protection.Returns.{evaluate-Total}
use django_waf.Forms.Protection.Payload.{payload_after-some, first-some}
use django_waf.Forms.Protection.Honest.{Honest, run-Passes, aggregate_score-zero}

module _ (conf : FormConf) (form : FormProtection) (r : Redis) (reads : ReadLaws r) (c : Codec)
    (int : Text → Option ℕ) (key : Text) (now : ℕ) (request : FormRequest)
    (submitted_data : List (Text × Text)) (p : TokenPayload) (s : r.Server)
    (h : Honest conf form r c int key now request submitted_data p s)
    (flags : 0 < conf.flag_threshold) (blocks : 0 < conf.block_threshold) where
  abbrev IsPassed : FormEvaluationResult → r.Server → Type 0
  IsPassed res t = res.verdict ≡ passed_form

  pass_is_no_block : (o : Outcome) → is_pass o ≡ true → is_block o ≡ false
  pass_is_no_block o e = ground arith

  resolved : (total : ℕ) → total ≡ 0 → resolve_verdict conf form total ≡ passed_form
  unfolding resolve_verdict
  resolved total e = rw e (ground (arith, flags, blocks))

  run-Reads :
      (d : DefenceName) (payload : Option TokenPayload)
      → Reads (run_defence conf form r c int key now request submitted_data d payload)
  unfolding run_defence
  run-Reads d payload =
      Reads-try
        (defence_evaluate r c int key conf now
          (context_for conf form r c int key now request submitted_data payload) d)
        passed (defence-Reads r reads int c key conf now _ d)

  chain-IsPassed :
      (names : List DefenceName) (outcomes : List Outcome)
      → All Passes outcomes
      → EnsuresAt s IsPassed
          (chain conf form r c int key now request submitted_data names (some p) outcomes)
  unfolding chain blocked_now result_of
  chain-IsPassed [] outcomes hs =
      EnsuresAt-pure s IsPassed _ (resolved _ (aggregate_score-zero conf form outcomes hs))
  chain-IsPassed (d ∷ names) outcomes hs =
      EnsuresAt-read IsPassed s Passes
        (run_defence conf form r c int key now request submitted_data d (some p)) _
        (run-Reads d (some p)) (run-Passes conf form r c int key now request submitted_data p s h d)
        λ o passes.
          rw
            (
              pass_is_no_block o passes,
              payload_after-some conf form r c int key now request submitted_data p d,
            )
            (chain-IsPassed names (outcomes ++ o ∷ [])
              (All-append Passes outcomes (o ∷ []) hs (passes, tt)))

  first-Passes :
      EnsuresAt s
        (λ o t. Passes o)
        (run_defence conf form r c int key now request submitted_data render_token none)
  unfolding run_defence defence_evaluate
  first-Passes =
      EnsuresAt-try s Passes _ passed
        (render_token-Passes r c int key conf now
          (context_for conf form r c int key now request submitted_data none) p s h.given h.valid
          h.in_time h.same_ip h.unused)
        refl

  begun :
      (names : List DefenceName)
      → EnsuresAt s IsPassed
          (chain conf form r c int key now request submitted_data (render_token ∷ names) none [])
  unfolding chain blocked_now
  begun names =
      EnsuresAt-read IsPassed s Passes
        (run_defence conf form r c int key now request submitted_data render_token none) _
        (run-Reads render_token none) first-Passes
        λ o passes.
          rw
            (
              pass_is_no_block o passes,
              first-some conf form r c int key now request submitted_data p h.given h.valid,
            )
            (chain-IsPassed names (o ∷ []) (passes, tt))

  evaluate-IsPassed :
      (names : List DefenceName)
      → names_for conf form request ≡ render_token ∷ names
      → EnsuresAt s IsPassed (evaluate conf form r c int key now request submitted_data)
  unfolding evaluate
  evaluate-IsPassed names first =
      EnsuresAt-if s IsPassed conf.protection_enabled _ _
        (λ _.
          subst
            (λ ns.
              EnsuresAt s IsPassed
                (chain conf form r c int key now request submitted_data ns none []))
            (sym first) (begun names))
        (λ _. EnsuresAt-pure s IsPassed _ refl)

  -- If the chain begins with the render token, both thresholds are above zero, GET and EXISTS change
  -- nothing, and the submission is `Honest` for the server that it comes to, which includes that
  -- Redis does not say that the marker is gone and has counted less than the limits, then the
  -- evaluation returns a result and its verdict is passed, whichever other defences the form has and
  -- whatever those reads raise.
  pub evaluate-honest :
      (names : List DefenceName)
      → names_for conf form request ≡ render_token ∷ names
      → (res : FormEvaluationResult) × ((evaluate conf form r c int key now request submitted_data
            s).0
          ≡ some res)
        × (res.verdict ≡ passed_form)
  evaluate-honest names first =
      let no_error : verify_token c key
            (submitted_token conf form r c int key now request submitted_data)
          ≢ type_error =
        λ e. let no : ⊥ = cc (h.valid, e) in no in
      let (res, returns) =
        (evaluate-Total conf form r c int key now request submitted_data no_error).at s in
      (res, returns, (evaluate-IsPassed names first).at res returns)
