-- ===== src/Challenge/Work/LeadingZeros.antt =====
-- The test of a digest against the number of its leading zero bits.
use Prim.Native.Nat.{bit_and}
use django_waf.Base.{
  ℕ, zero, suc, ◌+◌, ◌*◌, ◌/◌, ◌%◌, ◌≤◌, ◌<◌, ◌≡◌, refl, ◌↔◌, Bool, true, false, not, ◌||◌, List,
  [], ◌∷◌, leb, ◌==◌, if◌then◌else◌, All, arith, ◌∙◌, Bool-cases, inl, inr,
}
use django_waf.Challenge.Work.{top_mask, zero_prefix, digest_has_leading_zero_bits}

-- Zero bits before the first one bit of a byte.
zeros_of_byte : ℕ → ℕ
zeros_of_byte b =
    if leb 128 b
    then 0
    else if leb 64 b
    then 1
    else if leb 32 b
    then 2
    else if leb 16 b
    then 3
    else if leb 8 b
    then 4
    else if leb 4 b
    then 5
    else if leb 2 b
    then 6
    else if leb 1 b
    then 7
    else 8

-- Zero bits before the first one bit of a digest.
pub leading_zeros : List ℕ → ℕ
leading_zeros [] = 0
leading_zeros (b ∷ d) = if b == 0 then 8 + leading_zeros d else zeros_of_byte b

-- The test passes at every number up to the bound, which it leaves out.
holds_below : (ℕ → Bool) → ℕ → Bool
holds_below test zero = true
holds_below test (suc last) = if test last then holds_below test last else false

at-holds_below :
    (test : ℕ → Bool) (bound : ℕ)
    → holds_below test bound ≡ true
    → (i : ℕ) → i < bound
    → test i ≡ true
unfolding holds_below
at-holds_below test zero passes i small = absurd (omega arith)
at-holds_below test (suc last) passes i small = ground (arith, at-holds_below test last _ i)

abbrev same : Bool → Bool → Bool
same true b = b
same false b = not b

same→eq : (a b : Bool) → same a b ≡ true → a ≡ b
same→eq true b h = ground arith
same→eq false b h = ground arith

mask_table :
    holds_below
      (λ r.
        holds_below
          (λ b. r == 0 || same (bit_and b (top_mask r) == 0) (leb r (zeros_of_byte b)))
          256)
      8
    ≡ true
unfolding holds_below zeros_of_byte
mask_table = refl

mask_lem :
    (r b : ℕ)
    → r < 8
    → b < 256
    → (r == 0) ≡ false
    → (bit_and b (top_mask r) == 0) ≡ leb r (zeros_of_byte b)
mask_lem r b h k e =
    let row : holds_below
          (λ b. r == 0 || same (bit_and b (top_mask r) == 0) (leb r (zeros_of_byte b))) 256
        ≡ true =
      at-holds_below _ 8 mask_table r h in
    let entry : (r == 0 || same (bit_and b (top_mask r) == 0) (leb r (zeros_of_byte b))) ≡ true =
      at-holds_below _ 256 row b k in
    same→eq _ _ (rw e at entry)

zeros_of_byte-le :
    (b : ℕ)
    → (zeros_of_byte b ≤ 8)
      × ((b == 0) ≡ false → zeros_of_byte b ≤ 7)
      × ((b == 0) ≡ true → zeros_of_byte b ≡ 8)
unfolding zeros_of_byte
zeros_of_byte-le b = (ground arith, (λ h. ground arith), (λ h. ground arith))

zero_prefix_lem :
    (d : List ℕ) (full r : ℕ)
    → All (λ b. b < 256) d
    → r < 8
    → zero_prefix d full r ≡ leb (8 * full + r) (leading_zeros d)
unfolding zero_prefix leading_zeros
zero_prefix_lem [] zero r h k = ground arith
zero_prefix_lem [] (suc full) r h k = ground arith
zero_prefix_lem (b ∷ d) zero r (hb, h) k = elim (Bool-cases (r == 0)) [
  | inl z ↦ ground arith
  | inr z ↦ ground (arith, mask_lem r b k hb z, zeros_of_byte-le b)
]
zero_prefix_lem (b ∷ d) (suc full) r (hb, h) k = elim (Bool-cases (b == 0)) [
  | inl z ↦ ground (arith, zero_prefix_lem d full r h k)
  | inr z ↦ ground (arith, zeros_of_byte-le b)
]

-- The test passes exactly if the digest, a list of bytes, begins with at least so many zero bits;
-- in particular it fails if the digest has fewer bits.
pub digest_has_leading_zero_bits_iff :
    (digest : List ℕ) (bits : ℕ)
    → All (λ b. b < 256) digest
    → (digest_has_leading_zero_bits digest bits ≡ true) ↔ (bits ≤ leading_zeros digest)
unfolding digest_has_leading_zero_bits
digest_has_leading_zero_bits_iff digest bits h =
    let small : bits % 8 < 8 = omega arith in
    let split : 8 * (bits / 8) + bits % 8 ≡ bits = omega arith in
    let same_test : zero_prefix digest (bits / 8) (bits % 8) ≡ leb bits (leading_zeros digest) =
      zero_prefix_lem digest (bits / 8) (bits % 8) h small ∙ rw split refl in
    (λ e. ground (arith, same_test), λ e. ground (arith, same_test))
