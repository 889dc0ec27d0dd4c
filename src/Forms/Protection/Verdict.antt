-- ===== src/Forms/Protection/Verdict.antt =====
-- What a form's verdict says of the outcomes, and which defences were consulted.
use django_waf.Base.{
  ◌∙◌, ℕ, ◌+◌, ◌≤◌, ◌≡◌, refl, Bool, true, false, not, ◌&&◌, Option, none, List, [], ◌∷◌, ◌++◌,
  Text, if◌then◌else◌, any, length, length-append, arith, Bool-cases, inl, inr,
}
use mathlib.Core.Path.{subst}
use django_waf.Exec.Ensures.{Ensures, Ensures-pure, Ensures-if, Ensures-bind}
use django_waf.Redis.{Redis}
use django_waf.Forms.Tokens.{Codec, TokenPayload}
use django_waf.Forms.Context.{Outcome, is_block, FormRequest, FormConf}
use django_waf.Forms.Defences.{DefenceName}
use django_waf.Forms.Protection.{
  blocked_form, FormEvaluationResult, FormProtection, aggregate_score, resolve_verdict, names_for,
  run_defence, payload_after, result_of, blocked_now, chain, evaluate,
}

-- No outcome follows one that blocks.
abbrev pub block_is_last : List Outcome → Bool
block_is_last [] = true
block_is_last (o ∷ outcomes) =
    elim outcomes [ [] ↦ true | _ ∷ _ ↦ not (is_block o) ] && block_is_last outcomes

any_block-append :
    (xs : List Outcome) (o : Outcome)
    → any is_block xs ≡ false
    → any is_block (xs ++ o ∷ []) ≡ is_block o
any_block-append [] o h = ground arith
any_block-append (x ∷ xs) o h = ground (arith, any_block-append xs o)

block_is_last-append :
    (xs : List Outcome) (o : Outcome)
    → any is_block xs ≡ false
    → block_is_last (xs ++ o ∷ []) ≡ true
block_is_last-append [] o h = refl
block_is_last-append (x ∷ []) o h = ground arith
block_is_last-append (x ∷ y ∷ xs) o h = ground (arith, block_is_last-append (y ∷ xs) o)

block_is_last-none : (xs : List Outcome) → any is_block xs ≡ false → block_is_last xs ≡ true
block_is_last-none [] h = refl
block_is_last-none (x ∷ []) h = refl
block_is_last-none (x ∷ y ∷ xs) h = ground (arith, block_is_last-none (y ∷ xs))

module _ (conf : FormConf) (form : FormProtection) where
  -- `n` defences were to run.
  unfoldable pub Judged : ℕ → FormEvaluationResult → Type 0
  Judged n res =
      (res.total_score ≡ aggregate_score conf form res.outcomes)
      × (res.verdict ≡ (
          if any is_block res.outcomes
          then blocked_form
          else resolve_verdict conf form res.total_score))
      × (block_is_last res.outcomes ≡ true)
      × (any is_block res.outcomes ≡ false → length res.outcomes ≡ n)
      × (length res.outcomes ≤ n)

  module _ (r : Redis) (c : Codec) (int : Text → Option ℕ) (key : Text) (now : ℕ)
      (request : FormRequest) (submitted_data : List (Text × Text)) where
    abbrev at_the_end : Option TokenPayload → List Outcome → FormEvaluationResult
    at_the_end payload outcomes =
        result_of conf form r c int key now request submitted_data
          (resolve_verdict conf form (aggregate_score conf form outcomes)) payload outcomes

    at_end :
        (payload : Option TokenPayload) (outcomes : List Outcome)
        → any is_block outcomes ≡ false
        → Judged (length outcomes) (at_the_end payload outcomes)
    unfolding Judged result_of
    at_end payload outcomes h =
        (refl, rw h refl, block_is_last-none outcomes h, (λ _. refl), omega arith)

    -- The result that a block gives at once.
    abbrev at_once : Option TokenPayload → List Outcome → FormEvaluationResult
    at_once = result_of conf form r c int key now request submitted_data blocked_form

    at_once-Judged :
        (n : ℕ) (payload : Option TokenPayload) (outcomes : List Outcome) (o : Outcome)
        → any is_block outcomes ≡ false
        → is_block o ≡ true
        → length outcomes + 1 ≤ n
        → Judged n (at_once payload (outcomes ++ o ∷ []))
    unfolding Judged result_of
    at_once-Judged n payload outcomes o h b k =
        let found : any is_block (outcomes ++ o ∷ []) ≡ true = any_block-append outcomes o h ∙ b in
        (
          refl,
          rw found refl,
          block_is_last-append outcomes o h,
          (λ none_found. absurd (let no : ⊥ = cc in no)),
          omega (arith, length-append outcomes (o ∷ [])),
        )

    chain-Judged :
        (n : ℕ) (names : List DefenceName) (payload : Option TokenPayload) (outcomes : List Outcome)
        → any is_block outcomes ≡ false
        → length outcomes + length names ≡ n
        → Ensures
            (Judged n)
            (chain conf form r c int key now request submitted_data names payload outcomes)
    unfolding chain blocked_now
    chain-Judged n [] payload outcomes h k =
        let same : length outcomes ≡ n = omega arith in
        Ensures-pure (Judged n) (at_the_end payload outcomes)
          (subst (λ m. Judged m (at_the_end payload outcomes)) same (at_end payload outcomes h))
    chain-Judged n (d ∷ names) payload outcomes h k =
        Ensures-bind (Judged n)
          (run_defence conf form r c int key now request submitted_data d payload) _
          λ o. elim (Bool-cases (is_block o)) [
            | inl b ↦ rw b (
                Ensures-pure (Judged n) (at_once payload (outcomes ++ o ∷ []))
                  (at_once-Judged n payload outcomes o h b (omega arith)))
            | inr b ↦ rw b (
                Ensures-bind (Judged n)
                  (payload_after conf form r c int key now request submitted_data d payload) _
                  λ payload'.
                    chain-Judged n names payload' (outcomes ++ o ∷ [])
                      (any_block-append outcomes o h ∙ b)
                      (omega (arith, length-append outcomes (o ∷ []))))
          ]

    -- With protection enabled, an evaluation that returns has a total that is the weighted score of
    -- its outcomes; its verdict is blocked if an outcome blocks, and else is what the total comes to
    -- against the two thresholds; no outcome follows one that blocks; and unless one blocks, every
    -- defence that is to run for the request has an outcome.
    pub evaluate-Judged :
        conf.protection_enabled ≡ true
        → Ensures
            (Judged (length (names_for conf form request)))
            (evaluate conf form r c int key now request submitted_data)
    unfolding evaluate
    evaluate-Judged e =
        Ensures-if (Judged (length (names_for conf form request))) conf.protection_enabled _ _
          (λ _. chain-Judged _ (names_for conf form request) none [] refl (omega arith))
          (λ off. absurd (let no : ⊥ = cc in no))
