-- ===== src/Forms/Logging/Blocked.antt =====
-- The signal of a submission that was blocked names a defence that did not pass it.
use django_waf.Base.{
  length, ℕ, ◌≤◌, ◌<◌, ◌≡◌, ◌≢◌, refl, ap, sym, ◌∙◌, true, false, not, Option, some, List, [], ◌∷◌,
  Text, leb, any, In, All, arith, Bool-cases, inl, inr,
}
use django_waf.Forms.Context.{Outcome, is_block, is_pass, FormConf, FormRequest}
use django_waf.Redis.{Redis}
use django_waf.Forms.Tokens.{Codec, TokenPayload}
use django_waf.Forms.Defences.Laws.{WellFormed, Passes}
use django_waf.Forms.Protection.{
  FormVerdict, blocked_form, FormEvaluationResult, FormProtection, resolve_verdict, names_for,
  evaluate,
}
use django_waf.Forms.Protection.Verdict.{Judged, evaluate-Judged}
use django_waf.Forms.Protection.Honest.{aggregate_score-zero}
use django_waf.Forms.Protection.Outcomes.{evaluate-AllWellFormed}
use django_waf.Forms.Logging.{LogConf, submission_blocked, dispatch_signal, representative_reason}
use django_waf.Forms.Logging.Culprit.{block_is_no_pass, representative_reason_lem}

only_passing :
    (outcomes : List Outcome) → any (λ o. not (is_pass o)) outcomes ≡ false → All Passes outcomes
only_passing [] h = tt
only_passing (o ∷ outcomes) h = ground (arith, only_passing outcomes)

block_is_any :
    (outcomes : List Outcome)
    → any is_block outcomes ≡ true
    → any (λ o. not (is_pass o)) outcomes ≡ true
block_is_any [] h = cc
block_is_any (o ∷ outcomes) h = ground (arith, block_is_any outcomes, block_is_no_pass o)

dispatched :
    (log_conf : LogConf) (verdict : FormVerdict) (total : ℕ) (outcomes : List Outcome)
    (payload : Option TokenPayload)
    → verdict ≡ blocked_form
    → dispatch_signal log_conf (record {
      verdict = verdict;
      total_score = total;
      outcomes = outcomes;
      token_payload = payload;
    })
      ≡ submission_blocked total outcomes (representative_reason outcomes) ∷ []
unfolding dispatch_signal
dispatched log_conf verdict total outcomes payload e = rw e refl

module _ (log_conf : LogConf) (conf : FormConf) (form : FormProtection) (r : Redis) (c : Codec)
    (int : Text → Option ℕ) (key : Text) (now : ℕ) (request : FormRequest)
    (submitted_data : List (Text × Text)) where
  not_reached :
      (total : ℕ)
      → 0 < conf.block_threshold
      → total ≡ 0
      → resolve_verdict conf form total ≢ blocked_form
  unfolding resolve_verdict
  not_reached total points e h =
      let below : leb conf.block_threshold total ≡ false = ground arith in
      elim (Bool-cases (leb conf.flag_threshold total)) [
        | inl k ↦ let no : ⊥ = cc (rw (resolve_verdict, below, k) at h) in no
        | inr k ↦ let no : ⊥ = cc (rw (resolve_verdict, below, k) at h) in no
      ]

  blocked_has_culprit :
      (n : ℕ) (res : FormEvaluationResult)
      → 0 < conf.block_threshold
      → Judged conf form n res
      → res.verdict ≡ blocked_form
      → any (λ o. not (is_pass o)) res.outcomes ≡ true
  unfolding Judged
  blocked_has_culprit n res points (total, verdict, _, _, _) blocks =
      elim (Bool-cases (any is_block res.outcomes)) [
        | inl b ↦ block_is_any res.outcomes b
        | inr b ↦ elim (Bool-cases (any (λ o. not (is_pass o)) res.outcomes)) [
          | inl e ↦ e
          | inr e ↦ absurd (
              not_reached res.total_score points
                (total ∙ aggregate_score-zero conf form res.outcomes (only_passing res.outcomes e))
                (sym (rw b at verdict) ∙ blocks))
        ]
      ]

  -- With protection enabled and a block threshold above zero, a submission that is blocked sends one
  -- signal, and its reason is that of an outcome of the evaluation that is no pass: of one that blocks
  -- if there is one, and else of one with the highest score.
  pub blocked-culprit :
      (s : r.Server) (res : FormEvaluationResult)
      → conf.protection_enabled ≡ true
      → 0 < conf.block_threshold
      → (evaluate conf form r c int key now request submitted_data s).0 ≡ some res
      → res.verdict ≡ blocked_form
      → (o : Outcome) × In o res.outcomes
        × (is_pass o ≡ false)
        × (dispatch_signal log_conf res
            ≡ submission_blocked res.total_score res.outcomes o.reason ∷ [])
        × (is_block o ≡ any is_block res.outcomes)
        × (any is_block res.outcomes ≡ false → All (λ q. q.score ≤ o.score) res.outcomes)
  unfolding dispatch_signal
  blocked-culprit s res on points returns blocks =
      let judged : Judged conf form (length (names_for conf form request)) res =
        (evaluate-Judged conf form r c int key now request submitted_data on).at s res returns in
      let formed : All WellFormed res.outcomes =
        (evaluate-AllWellFormed conf form r c int key now request submitted_data).at s res
          returns in
      let (o, i, is, reason, kind, highest) =
        representative_reason_lem res.outcomes formed
          (blocked_has_culprit (length (names_for conf form request)) res points judged blocks) in
      (
        o,
        i,
        is,
        dispatched log_conf res.verdict res.total_score res.outcomes res.token_payload blocks
            ∙ ap (λ t. submission_blocked res.total_score res.outcomes t ∷ []) reason,
        kind,
        highest,
      )
