-- ===== src/Exec/Ensures.antt =====
-- What holds of every value that an action returns, with a rule for each way to build an action.
use django_waf.Base.{◌≡◌, refl, Bool, true, false, Option, none, some, if◌then◌else◌}
use mathlib.Core.Path.{subst}
use django_waf.Exec.{Exec, pure, raise, handle, try_except, continue, return_found, ◌>>=◌}

pub record Ensures {S A : Type 0} (P : A → Type 0) (m : Exec S A) : Type 0 where
  pub at : (s : S) (a : A) → (m s).0 ≡ some a → P a

module _ {S A : Type 0} (P : A → Type 0) where
  pub Ensures-pure : (a : A) → P a → Ensures {S = S} P (pure a)
  Ensures-pure a p = record { at = λ s b e. let same : a ≡ b = cc in subst P same p }

  pub Ensures-raise : Ensures {S = S} P raise
  Ensures-raise = record { at = λ s b e. let no : ⊥ = cc in absurd no }

  Ensures-handle :
      (o : Option A) (h : Exec S A)
      → ((a : A) → o ≡ some a → P a)
      → Ensures P h
      → (s : S) (b : A) → (handle o h s).0 ≡ some b
      → P b
  Ensures-handle none h k kh s b e = kh.at s b e
  Ensures-handle (some a) h k kh s b e = k b e

  pub Ensures-try : (m h : Exec S A) → Ensures P m → Ensures P h → Ensures P (try_except m h)
  Ensures-try m h km kh = record {
    at = λ s b e. Ensures-handle (m s).0 h (λ a same. km.at s a same) kh (m s).1 b e;
  }

  pub Ensures-if :
      (b : Bool) (m n : Exec S A)
      → (b ≡ true → Ensures P m)
      → (b ≡ false → Ensures P n)
      → Ensures P (if b then m else n)
  Ensures-if true m n km kn = km refl
  Ensures-if false m n km kn = kn refl

module _ {S A B : Type 0} (P : B → Type 0) where
  Ensures-continue :
      (f : A → Exec S B) (o : Option A)
      → ((a : A) → o ≡ some a → Ensures P (f a))
      → (s : S) (b : B) → (continue o f s).0 ≡ some b
      → P b
  Ensures-continue f none k s b e = absurd (let no : ⊥ = cc in no)
  Ensures-continue f (some a) k s b e = (k a refl).at s b e

  pub Ensures-bind :
      (m : Exec S A) (f : A → Exec S B) → ((a : A) → Ensures P (f a)) → Ensures P (m >>= f)
  Ensures-bind m f k = record { at = λ s b e. Ensures-continue f (m s).0 (λ a _. k a) (m s).1 b e }

  -- The rest may use where its value comes from.
  pub Ensures-bind_from :
      (m : Exec S A) (f : A → Exec S B)
      → ((a : A) (s : S) → (m s).0 ≡ some a → Ensures P (f a))
      → Ensures P (m >>= f)
  Ensures-bind_from m f k = record {
    at = λ s b e. Ensures-continue f (m s).0 (λ a same. k a s same) (m s).1 b e;
  }

  pub Ensures-bind_of :
      (Q : A → Type 0) (m : Exec S A) (f : A → Exec S B)
      → Ensures Q m
      → ((a : A) → Q a → Ensures P (f a))
      → Ensures P (m >>= f)
  Ensures-bind_of Q m f q k = Ensures-bind_from m f (λ a s e. k a (q.at s a e))

module _ {S A : Type 0} (P : A → Type 0) where
  pub Ensures-return_found :
      (rest : Exec S A) (o : Option A)
      → Ensures P rest
      → ((a : A) → o ≡ some a → P a)
      → Ensures P (return_found rest o)
  Ensures-return_found rest none k p = k
  Ensures-return_found rest (some a) k p = Ensures-pure P a (p a refl)
