-- ===== src/Base/Strings.antt =====
-- Python's `str` as a list of code points, and the methods of it that the package calls.
use Prim.Native.Nat.{ℕ, zero, suc}
use Prim.Native.Char.{code}
use Prim.Native.String.{String}
use mathlib.Core.Path.{◌≡◌, refl}
use mathlib.Core.Logic.{◌↔◌, ◌≢◌}
use mathlib.Core.Bool.{Bool, true, false, not, ◌&&◌, ◌||◌}
use mathlib.Core.List.{List, [], ◌∷◌, ◌++◌}
use mathlib.Core.Option.{Option, none, some}
use mathlib.Core.Logic.{inl, inr}
use native.Mathlib.Omega.{arith}
use django_waf.Base.Tests.{◌==◌, if◌then◌else◌, Option-cases, Bool-cases}
use django_waf.Base.Lists.{All, All-append, length}

abbrev pub Text : Type 0
Text = List ℕ

-- A literal of the source.
abbrev pub text : String → Text
text String.[] = []
text (String.◌∷◌ c s) = code c ∷ text s

infix 50 ◌=ᵗ◌
abbrev pub ◌=ᵗ◌ : Text → Text → Bool
[] =ᵗ [] = true
[] =ᵗ (y ∷ ys) = false
(x ∷ xs) =ᵗ [] = false
(x ∷ xs) =ᵗ (y ∷ ys) = x == y && xs =ᵗ ys

pub =ᵗ_refl : (s : Text) → (s =ᵗ s) ≡ true
=ᵗ_refl [] = refl
=ᵗ_refl (x ∷ s) = ground (arith, =ᵗ_refl s)

pub =ᵗ→eq : (s t : Text) → (s =ᵗ t) ≡ true → s ≡ t
=ᵗ→eq [] [] h = refl
=ᵗ→eq [] (y ∷ t) h = cc
=ᵗ→eq (x ∷ s) [] h = cc
=ᵗ→eq (x ∷ s) (y ∷ t) h = ground (arith, =ᵗ→eq s t)

pub =ᵗ_iff : (s t : Text) → ((s =ᵗ t) ≡ true) ↔ (s ≡ t)
=ᵗ_iff s t = (=ᵗ→eq s t, λ e. rw e (=ᵗ_refl t))

abbrev pub is_empty : Text → Bool
is_empty [] = true
is_empty (c ∷ s) = false

-- The truth of a value that may be `None`.
abbrev pub is_truthy : Option Text → Bool
is_truthy none = false
is_truthy (some s) = not (is_empty s)

-- `s.startswith(p)`
abbrev pub starts_with : Text → Text → Bool
starts_with s [] = true
starts_with [] (c ∷ p) = false
starts_with (d ∷ s) (c ∷ p) = d == c && starts_with s p

-- `p in s`
abbrev pub has_substring : Text → Text → Bool
has_substring p [] = is_empty p
has_substring p (c ∷ s) = starts_with (c ∷ s) p || has_substring p s

abbrev pub NoChar : ℕ → Text → Type 0
NoChar d = All (λ c. c ≢ d)

-- `s.partition(d)`, and `none` where there is no delimiter.
unfoldable pub partition : ℕ → Text → Option (Text × Text)
partition d [] = none
partition d (c ∷ s) =
    let rest = partition d s in
    if c == d then some ([], s) else elim rest [ none ↦ none | some (a, b) ↦ some (c ∷ a, b) ]

-- `s.rsplit(d, 1)`, and `none` where there is no delimiter.
unfoldable pub rsplit_once : ℕ → Text → Option (Text × Text)
rsplit_once d [] = none
rsplit_once d (c ∷ s) = elim (rsplit_once d s) [
  | none ↦ if c == d then some ([], s) else none
  | some (a, b) ↦ some (c ∷ a, b)
]

pub partition-delimiter : (d : ℕ) (a b : Text) → NoChar d a → partition d (a ++ d ∷ b) ≡ some (a, b)
unfolding partition
partition-delimiter d [] b h = ground arith
partition-delimiter d (c ∷ a) b (p, h) = ground (arith, partition-delimiter d a b h)

rsplit_once-none : (d : ℕ) (b : Text) → NoChar d b → rsplit_once d b ≡ none
unfolding rsplit_once
rsplit_once-none d [] h = refl
rsplit_once-none d (c ∷ b) (p, h) = rw (rsplit_once-none d b h) (ground arith)

pub rsplit_once-delimiter :
    (d : ℕ) (a b : Text) → NoChar d b → rsplit_once d (a ++ d ∷ b) ≡ some (a, b)
unfolding rsplit_once
rsplit_once-delimiter d [] b h = rw (rsplit_once-none d b h) (ground arith)
rsplit_once-delimiter d (c ∷ a) b h = rw (rsplit_once-delimiter d a b h)

pub rsplit_once-eq_some : (d : ℕ) (s a b : Text) → rsplit_once d s ≡ some (a, b) → s ≡ a ++ d ∷ b
unfolding rsplit_once
rsplit_once-eq_some d [] a b h = cc
rsplit_once-eq_some d (c ∷ s) a b h = elim (Option-cases (rsplit_once d s)) [
  | inl e ↦ ground arith
  | inr ((a', b'), e) ↦ ground (arith, rsplit_once-eq_some d s a' b')
]

-- `s.split(d)`: the first part and the others.
split_parts : ℕ → Text → Text × List Text
split_parts d [] = ([], [])
split_parts d (c ∷ s) =
    let (part, parts) = split_parts d s in if c == d then ([], part ∷ parts) else (c ∷ part, parts)

unfoldable pub split : ℕ → Text → List Text
unfolding split_parts
split d s = let (part, parts) = split_parts d s in part ∷ parts

split_parts-delimiter :
    (d : ℕ) (a b : Text)
    → NoChar d a
    → split_parts d (a ++ d ∷ b) ≡ (a, (split_parts d b).0 ∷ (split_parts d b).1)
unfolding split_parts
split_parts-delimiter d [] b h = ground arith
split_parts-delimiter d (c ∷ a) b (p, h) = rw (split_parts-delimiter d a b h) (ground arith)

split_parts-NoChar : (d : ℕ) (a : Text) → NoChar d a → split_parts d a ≡ (a, [])
unfolding split_parts
split_parts-NoChar d [] h = refl
split_parts-NoChar d (c ∷ a) (p, h) = rw (split_parts-NoChar d a h) (ground arith)

pub split-delimiter : (d : ℕ) (a b : Text) → NoChar d a → split d (a ++ d ∷ b) ≡ a ∷ split d b
unfolding split
split-delimiter d a b h = rw (split_parts-delimiter d a b h) refl

pub split-NoChar : (d : ℕ) (a : Text) → NoChar d a → split d a ≡ a ∷ []
unfolding split
split-NoChar d a h = rw (split_parts-NoChar d a h) refl

split_parts-All-NoChar :
    (d : ℕ) (s : Text) → NoChar d (split_parts d s).0 × All (NoChar d) (split_parts d s).1
unfolding split_parts
split_parts-All-NoChar d [] = (tt, tt)
split_parts-All-NoChar d (c ∷ s) =
    let (h, t) = split_parts-All-NoChar d s in
    elim (Bool-cases (c == d)) [ inl e ↦ rw e (tt, (h, t)) | inr e ↦ rw e ((ground arith, h), t) ]

-- No part of a split text has the delimiter.
pub split-All-NoChar : (d : ℕ) (s : Text) → All (NoChar d) (split d s)
unfolding split
split-All-NoChar d s = split_parts-All-NoChar d s

pub NoChar-append : (d : ℕ) (a b : Text) → NoChar d a → NoChar d b → NoChar d (a ++ b)
NoChar-append d a b = All-append (λ c. c ≢ d) a b

abbrev pub repeat : ℕ → ℕ → Text
repeat zero c = []
repeat (suc n) c = c ∷ repeat n c

-- `s.rstrip(c)`
unfoldable pub strip_end : ℕ → Text → Text
strip_end d [] = []
strip_end d (c ∷ s) = let rest = strip_end d s in if is_empty rest && c == d then [] else c ∷ rest

strip_end-repeat : (d n : ℕ) → strip_end d (repeat n d) ≡ []
unfolding strip_end
strip_end-repeat d zero = refl
strip_end-repeat d (suc n) = rw (strip_end-repeat d n) (ground arith)

pub strip_end_lem : (d n : ℕ) (s : Text) → NoChar d s → strip_end d (s ++ repeat n d) ≡ s
unfolding strip_end
strip_end_lem d n [] h = strip_end-repeat d n
strip_end_lem d n (c ∷ s) (p, h) = rw (strip_end_lem d n s h) (ground arith)

pub length-repeat : (n c : ℕ) → length (repeat n c) ≡ n
length-repeat zero c = refl
length-repeat (suc n) c = omega (arith, length-repeat n c)

-- `d.get(key)` in a dictionary given by its entries.
abbrev pub lookup : {A : Type 0} → Text → List (Text × A) → Option A
lookup key [] = none
lookup key ((k, a) ∷ entries) = if k =ᵗ key then some a else lookup key entries
