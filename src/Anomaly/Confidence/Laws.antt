-- ===== src/Anomaly/Confidence/Laws.antt =====
-- services/anomaly_detector.py: the range of `_scaled_confidence`, and that it rises.
use django_waf.Base.{
  ℕ, ◌+◌, ◌-◌, ◌*◌, ◌/◌, ◌≤◌, ◌<◌, Bool, true, false, ◌≡◌, refl, inl, inr, Bool-cases, ltb, ltb→lt,
  ltb_false→le, arith,
}
use native.Mathlib.Nat.{le-div_iff_mul-le, div-lt_iff_lt-mul, div-mul-le_self, le_trans}
use django_waf.Anomaly.Confidence.{scaled_confidence, quantize, at_most}

-- The confidence for a margin that is divided by a positive span.
abbrev of_margin : ℕ → ℕ → ℕ
of_margin span margin = quantize (
    at_most (record { top = 984; bottom = 1000 })
      (record { top = span + 2 * margin; bottom = 2 * span }))

is_capped : ℕ → ℕ → Bool
is_capped span margin = ltb (984 * (2 * span)) ((span + 2 * margin) * 1000)

of_margin-capped : (span margin : ℕ) → is_capped span margin ≡ true → of_margin span margin ≡ 98
unfolding is_capped
of_margin-capped span margin h = rw h refl

of_margin-free :
    (span margin : ℕ)
    → is_capped span margin ≡ false
    → of_margin span margin ≡ (200 * (span + 2 * margin) + 2 * span) / (2 * (2 * span))
unfolding is_capped
of_margin-free span margin h = rw h refl

div_mono : (k x y : ℕ) → 0 < k → x ≤ y → x / k ≤ y / k
div_mono k x y p h = (le-div_iff_mul-le p).1 (le_trans (div-mul-le_self x k) h)

of_margin_bounds :
    (span margin : ℕ) → 0 < span → (50 ≤ of_margin span margin) × (of_margin span margin ≤ 98)
unfolding is_capped
of_margin_bounds span margin p = elim (Bool-cases (is_capped span margin)) [
  | inl h ↦ rw (of_margin-capped span margin h) (omega arith)
  | inr h ↦
      let b = ltb_false→le _ _ h in
      let q : 0 < 2 * (2 * span) = omega arith in
      let low =
        (le-div_iff_mul-le {x = 50} {y = 200 * (span + 2 * margin) + 2 * span} q).1 (omega arith) in
      let high =
        (div-lt_iff_lt-mul {x = 200 * (span + 2 * margin) + 2 * span} {y = 99} q).1 (omega arith) in
      rw (of_margin-free span margin h) (low, omega (arith, high))
]

of_margin_mono :
    (span margin margin' : ℕ)
    → 0 < span
    → margin ≤ margin'
    → of_margin span margin ≤ of_margin span margin'
unfolding is_capped
of_margin_mono span margin margin' p h = elim (Bool-cases (is_capped span margin')) [
  | inl e ↦ rw (of_margin-capped span margin' e) (of_margin_bounds span margin p).1
  | inr e ↦ elim (Bool-cases (is_capped span margin)) [
    | inl e' ↦ absurd (let no : ⊥ = omega (arith, ltb→lt _ _ e', ltb_false→le _ _ e) in no)
    | inr e' ↦
        rw (of_margin-free span margin e', of_margin-free span margin' e)
          (div_mono (2 * (2 * span)) _ _ (omega arith) (omega arith))
  ]
]

-- A confidence is at least 0.50 and at most 0.98, whatever the threshold and the span, and a larger
-- observation never gives a smaller one.
pub scaled_confidence_bounds :
    (unit observed larger threshold span : ℕ)
    → 0 < unit
    → observed ≤ larger
    → (50 ≤ scaled_confidence unit observed threshold span)
      × (scaled_confidence unit observed threshold span ≤ 98)
      × (scaled_confidence unit observed threshold span
          ≤ scaled_confidence unit larger threshold span)
unfolding scaled_confidence
scaled_confidence_bounds unit observed larger threshold span p h = elim (Bool-cases (ltb 0 span)) [
  | inl e ↦
      let (low, high) = of_margin_bounds span (observed - threshold) (ltb→lt 0 span e) in
      rw e (low, high, of_margin_mono span _ (larger - threshold) (ltb→lt 0 span e) (omega arith))
  | inr e ↦
      let (low, high) = of_margin_bounds unit (observed - threshold) p in
      rw e (low, high, of_margin_mono unit _ (larger - threshold) p (omega arith))
]
