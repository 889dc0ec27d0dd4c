-- ===== src/Anomaly/Confidence.antt =====
-- services/anomaly_detector.py: `_scaled_confidence`.
--
-- The three numbers are given in units of 1/`unit`, so that a ratio of two counts is exact; the
-- source computes with floats. The result is a number of hundredths.
pub mod Laws
use django_waf.Base.{ℕ, Bool, true, false, ◌≡◌, ◌+◌, ◌-◌, ◌*◌, ◌/◌, ◌≤◌, ltb, if◌then◌else◌, arith}

-- A number as a quotient of two.
record Fraction : Type 0 where
  top : ℕ
  bottom : ℕ

abbrev at_most : Fraction → Fraction → Fraction
at_most most f = if ltb (most.top * f.bottom) (f.top * most.bottom) then most else f

-- `quantize(Decimal("0.01"), rounding=ROUND_HALF_UP)`
abbrev quantize : Fraction → ℕ
quantize f = (200 * f.top + f.bottom) / (2 * f.bottom)

-- `0.5 + (observed - threshold) / span`, at least 0.5
abbrev raw_confidence : ℕ → ℕ → ℕ → Fraction
raw_confidence observed threshold span = record {
  top = span + 2 * (observed - threshold);
  bottom = 2 * span;
}

unfoldable pub scaled_confidence : ℕ → ℕ → ℕ → ℕ → ℕ
scaled_confidence unit observed threshold span =
    let safe_span = if ltb 0 span then span else unit in
    quantize
      (at_most (record { top = 984; bottom = 1000 }) (raw_confidence observed threshold safe_span))
