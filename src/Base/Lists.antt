-- ===== src/Base/Lists.antt =====
-- Lists measured by native numbers, and predicates on them by recursion.
use Prim.Native.Nat.{ℕ, zero, suc, ◌+◌, ◌≤◌}
use mathlib.Core.Path.{◌≡◌, refl, sym, subst}
use mathlib.Core.Logic.{◌⊎◌, inl, inr}
use mathlib.Core.Bool.{Bool, true, false, ◌&&◌, ◌||◌}
use mathlib.Core.List.{List, [], ◌∷◌, ◌++◌}
use native.Mathlib.Omega.{arith}
use django_waf.Base.Tests.{if◌then◌else◌, Bool-cases}

module _ {ℓ} {A : Type ℓ} where
  abbrev pub length : List A → ℕ
  length [] = 0
  length (x ∷ xs) = suc (length xs)

  abbrev pub any : (A → Bool) → List A → Bool
  any p [] = false
  any p (x ∷ xs) = p x || any p xs

  abbrev pub all : (A → Bool) → List A → Bool
  all p [] = true
  all p (x ∷ xs) = p x && all p xs

  -- `[x for x in xs if p(x)]`
  abbrev pub keep_if : (A → Bool) → List A → List A
  keep_if p [] = []
  keep_if p (x ∷ xs) = let rest = keep_if p xs in if p x then x ∷ rest else rest

  abbrev pub take : ℕ → List A → List A
  take zero xs = []
  take (suc n) [] = []
  take (suc n) (x ∷ xs) = x ∷ take n xs

  abbrev pub drop : ℕ → List A → List A
  drop zero xs = xs
  drop (suc n) [] = []
  drop (suc n) (x ∷ xs) = drop n xs

  pub length-append : (xs ys : List A) → length (xs ++ ys) ≡ length xs + length ys
  length-append [] ys = omega arith
  length-append (x ∷ xs) ys = omega (arith, length-append xs ys)

  pub length-keep_if : (p : A → Bool) (xs : List A) → length (keep_if p xs) ≤ length xs
  length-keep_if p [] = omega arith
  length-keep_if p (x ∷ xs) = ground (arith, length-keep_if p xs)

  pub keep_if-append :
      (p : A → Bool) (xs ys : List A) → keep_if p (xs ++ ys) ≡ keep_if p xs ++ keep_if p ys
  keep_if-append p [] ys = refl
  keep_if-append p (x ∷ xs) ys = ground (arith, keep_if-append p xs ys)

module _ {ℓ κ} {A : Type ℓ} (P : A → Type κ) where
  abbrev pub All : List A → Type κ
  All [] = Unit
  All (x ∷ xs) = P x × All xs

  pub All-append : (xs ys : List A) → All xs → All ys → All (xs ++ ys)
  All-append [] ys _ k = k
  All-append (x ∷ xs) ys (p, h) k = (p, All-append xs ys h k)

  pub All-keep_if : (p : A → Bool) (xs : List A) → All xs → All (keep_if p xs)
  All-keep_if p [] _ = tt
  All-keep_if p (x ∷ xs) (q, h) = ground (arith, All-keep_if p xs h)

  -- What holds of every element, given that it holds of each alone.
  pub All-of_each : ((x : A) → P x) → (xs : List A) → All xs
  All-of_each f [] = tt
  All-of_each f (x ∷ xs) = (f x, All-of_each f xs)

pub All-map {ℓ κ μ} :
    {A : Type ℓ} {P : A → Type κ} {Q : A → Type μ} (f : (x : A) → P x → Q x) (xs : List A)
    → All P xs
    → All Q xs
All-map f [] _ = tt
All-map f (x ∷ xs) (p, h) = (f x p, All-map f xs h)

module _ {ℓ} {A : Type ℓ} where
  pub keep_if-All : (p : A → Bool) (xs : List A) → All (λ x. p x ≡ true) xs → keep_if p xs ≡ xs
  keep_if-All p [] _ = refl
  keep_if-All p (x ∷ xs) (q, h) = rw (q, keep_if-All p xs h)

  pub keep_if-none : (p : A → Bool) (xs : List A) → All (λ x. p x ≡ false) xs → keep_if p xs ≡ []
  keep_if-none p [] _ = refl
  keep_if-none p (x ∷ xs) (q, h) = rw q (keep_if-none p xs h)

  pub keep_if-congr :
      (p q : A → Bool) (xs : List A) → All (λ x. p x ≡ q x) xs → keep_if p xs ≡ keep_if q xs
  keep_if-congr p q [] _ = refl
  keep_if-congr p q (x ∷ xs) (e, h) = rw (e, keep_if-congr p q xs h)

  -- A second test that implies the first makes the first idle.
  pub keep_if-keep_if :
      (p q : A → Bool) (xs : List A)
      → All (λ x. q x ≡ true → p x ≡ true) xs
      → keep_if q (keep_if p xs) ≡ keep_if q xs
  keep_if-keep_if p q [] _ = refl
  keep_if-keep_if p q (x ∷ xs) (e, h) = ground (arith, keep_if-keep_if p q xs h)

abbrev pub In : {A : Type 0} → A → List A → Type 0
In a [] = ⊥
In a (x ∷ xs) = (a ≡ x) ⊎ In a xs

pub All-In : {A : Type 0} (P : A → Type 0) {a : A} (xs : List A) → All P xs → In a xs → P a
All-In P [] h i = absurd i
All-In P (x ∷ xs) (p, h) (inl e) = subst P (sym e) p
All-In P (x ∷ xs) (p, h) (inr i) = All-In P xs h i

In-cons_if :
    {A : Type 0} {a : A} (p : A → Bool) (x : A) (xs : List A) (b : Bool)
    → p x ≡ b
    → In a (if b then x ∷ keep_if p xs else keep_if p xs)
    → (In a (keep_if p xs) → In a xs × (p a ≡ true))
    → In a (x ∷ xs) × (p a ≡ true)
In-cons_if p x xs true e (inl same) ih = (inl same, rw same e)
In-cons_if p x xs true e (inr j) ih = (inr (ih j).0, (ih j).1)
In-cons_if p x xs false e j ih = (inr (ih j).0, (ih j).1)

pub In-keep_if :
    {A : Type 0} {a : A} (p : A → Bool) (xs : List A) → In a (keep_if p xs) → In a xs × (p a ≡ true)
In-keep_if p [] i = absurd i
In-keep_if p (x ∷ xs) i = In-cons_if p x xs (p x) refl i (In-keep_if p xs)

pub In-self_keep_if :
    {A : Type 0} {a : A} (p : A → Bool) (xs : List A) → In a xs → p a ≡ true → In a (keep_if p xs)
In-self_keep_if p [] i q = i
In-self_keep_if p (x ∷ xs) (inl e) q = rw (rw e at q) (inl e)
In-self_keep_if p (x ∷ xs) (inr i) q = elim (Bool-cases (p x)) [
  | inl h ↦ rw h (inr (In-self_keep_if p xs i q))
  | inr h ↦ rw h (In-self_keep_if p xs i q)
]

-- A relation that holds of all that is kept holds of all, where the test fails or it holds.
pub All-of_In : {A : Type 0} (P : A → Type 0) (xs : List A) → ((a : A) → In a xs → P a) → All P xs
All-of_In P [] f = tt
All-of_In P (x ∷ xs) f = (f x (inl refl), All-of_In P xs (λ a i. f a (inr i)))

module _ {A : Type 0} (a : A) where
  pub In-append_left : (xs ys : List A) → In a xs → In a (xs ++ ys)
  In-append_left [] ys i = absurd i
  In-append_left (x ∷ xs) ys (inl e) = inl e
  In-append_left (x ∷ xs) ys (inr i) = inr (In-append_left xs ys i)

  pub In-middle : (xs ys : List A) → In a (xs ++ a ∷ ys)
  In-middle [] ys = inl refl
  In-middle (x ∷ xs) ys = inr (In-middle xs ys)

  -- What is in a list is the element in the middle, or stays when that is replaced.
  pub In-replaced : (x y : A) (xs ys : List A) → In a (xs ++ x ∷ ys) → (a ≡ x) ⊎ In a (xs ++ y ∷ ys)
  In-replaced x y [] ys (inl e) = inl e
  In-replaced x y [] ys (inr i) = inr (inr i)
  In-replaced x y (z ∷ xs) ys (inl e) = inr (inl e)
  In-replaced x y (z ∷ xs) ys (inr i) = elim (In-replaced x y xs ys i) [
    | inl e ↦ inl e
    | inr j ↦ inr (inr j)
  ]
