-- ===== src/Forms/Logging/Culprit.antt =====
-- The reason that a blocked submission's signal carries.
use django_waf.Base.{
  ℕ, ◌≤◌, ◌<◌, ◌≡◌, refl, sym, ◌∙◌, true, false, not, List, [], ◌∷◌, ltb, if◌then◌else◌, is_empty,
  any, In, All, All-In, arith, Bool-cases, inl, inr,
}
use mathlib.Core.Path.{subst}
use django_waf.Forms.Context.{Outcome, is_block, is_pass}
use django_waf.Forms.Defences.Laws.{WellFormed}
use django_waf.Forms.Logging.{first_block_reason, worst_from, or_worst, representative_reason}

pub block_is_no_pass : (o : Outcome) → is_block o ≡ true → is_pass o ≡ false
block_is_no_pass o e = ground arith

-- A member of a list is one of a list with one more.
keep : (a b : Outcome) (xs : List Outcome) (x : Outcome) → In x (a ∷ xs) → In x (a ∷ b ∷ xs)
keep a b xs x (inl e) = inl e
keep a b xs x (inr i) = inr (inr i)

first_block_lem :
    (outcomes : List Outcome)
    → All WellFormed outcomes
    → any is_block outcomes ≡ true
    → (o : Outcome) × In o outcomes
      × (is_block o ≡ true)
      × (first_block_reason outcomes ≡ o.reason)
      × (is_empty o.reason ≡ false)
unfolding first_block_reason
first_block_lem [] _ h = absurd (let no : ⊥ = cc in no)
first_block_lem (o ∷ outcomes) (w, ws) h = elim (Bool-cases (is_block o)) [
  | inl b ↦ (o, inl refl, b, rw b refl, (w.1 (block_is_no_pass o b)).1)
  | inr b ↦
      let (q, i, is, same, given) = first_block_lem outcomes ws (rw b at h) in
      (q, inr i, is, rw b same, given)
]

-- `w` is in the list and nothing there scores higher.
abbrev Top : List Outcome → Outcome → Type 0
Top outcomes w = In w outcomes × All (λ o. o.score ≤ w.score) outcomes

better : Outcome → Outcome → Outcome
better best o = if ltb best.score o.score then o else best

worst_lem :
    (best : Outcome) (outcomes : List Outcome) → Top (best ∷ outcomes) (worst_from best outcomes)
unfolding worst_from better
worst_lem best [] = (inl refl, (omega arith, tt))
worst_lem best (o ∷ outcomes) = elim (Bool-cases (ltb best.score o.score)) [
  | inl h ↦
      let same : better best o ≡ o = rw h refl in
      let (i, (top, all)) = worst_lem o outcomes in
      subst (λ n. Top (best ∷ o ∷ outcomes) (worst_from n outcomes)) (sym same)
        (inr i, (ground (arith, top), (top, all)))
  | inr h ↦
      let same : better best o ≡ best = rw h refl in
      let (i, (top, all)) = worst_lem best outcomes in
      subst (λ n. Top (best ∷ o ∷ outcomes) (worst_from n outcomes)) (sym same)
        (keep best o outcomes (worst_from best outcomes) i, (top, (ground (arith, top), all)))
]

first_block_none :
    (outcomes : List Outcome) → any is_block outcomes ≡ false → first_block_reason outcomes ≡ []
unfolding first_block_reason
first_block_none [] h = refl
first_block_none (o ∷ outcomes) h = ground (arith, first_block_none outcomes)

-- A score above zero is not a pass's.
scores_lem : (o : Outcome) → WellFormed o → 0 < o.score → is_pass o ≡ false
scores_lem o (w, _) h = elim (Bool-cases (is_pass o)) [
  | inr e ↦ e
  | inl e ↦
      let none_scored : o.score ≡ 0 = w e in
      absurd (let no : ⊥ = omega (arith, h, none_scored) in no)
]

highest_lem :
    (outcomes : List Outcome) (most : ℕ)
    → All WellFormed outcomes
    → any (λ o. not (is_pass o)) outcomes ≡ true
    → All (λ o. o.score ≤ most) outcomes
    → 0 < most
highest_lem [] most _ h _ = absurd (let no : ⊥ = cc in no)
highest_lem (o ∷ outcomes) most ((_, w), ws) h (top, all) = elim (Bool-cases (is_pass o)) [
  | inl e ↦ highest_lem outcomes most ws (rw e at h) all
  | inr e ↦ omega (arith, (w e).0, top)
]

none_blocks :
    (outcomes : List Outcome)
    → any is_block outcomes ≡ false
    → All (λ o. is_block o ≡ false) outcomes
none_blocks [] h = tt
none_blocks (o ∷ outcomes) h = ground (arith, none_blocks outcomes)

-- If a submission has an outcome that is no pass, the reason that its signal would carry is that of
-- one of its outcomes that are no passes: of one that blocks if there is one, and else of one
-- with the highest score.
pub representative_reason_lem :
    (outcomes : List Outcome)
    → All WellFormed outcomes
    → any (λ o. not (is_pass o)) outcomes ≡ true
    → (o : Outcome) × In o outcomes
      × (is_pass o ≡ false)
      × (representative_reason outcomes ≡ o.reason)
      × (is_block o ≡ any is_block outcomes)
      × (any is_block outcomes ≡ false → All (λ q. q.score ≤ o.score) outcomes)
unfolding representative_reason or_worst
representative_reason_lem [] ws h = absurd (let no : ⊥ = cc in no)
representative_reason_lem (o ∷ outcomes) ws h = elim (Bool-cases (any is_block (o ∷ outcomes))) [
  | inl b ↦
      let (q, i, is, same, given) = first_block_lem (o ∷ outcomes) ws b in
      (
        q,
        i,
        block_is_no_pass q is,
        rw (same, given) refl,
        is ∙ sym b,
        (λ no. absurd (let clash : ⊥ = cc (b, no) in clash)),
      )
  | inr b ↦
      let (i, all) = worst_lem o outcomes in
      let w : Outcome = worst_from o outcomes in
      (
        w,
        i,
        scores_lem w (All-In WellFormed (o ∷ outcomes) ws i)
            (highest_lem (o ∷ outcomes) w.score ws h all),
        rw (first_block_none (o ∷ outcomes) b) refl,
        All-In (λ q. is_block q ≡ false) (o ∷ outcomes) (none_blocks (o ∷ outcomes) b) i ∙ sym b,
        (λ _. all),
      )
]
