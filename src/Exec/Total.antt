-- ===== src/Exec/Total.antt =====
-- Actions that always give a value, with a rule for each way to build an action.
use django_waf.Base.{◌≡◌, refl, Bool, true, false, Option, none, some, if◌then◌else◌}
use django_waf.Exec.{Exec, pure, continue, return_found, try_except, try_except-Total, ◌>>=◌}

pub record Total {S A : Type 0} (m : Exec S A) : Type 0 where
  pub at : (s : S) → (a : A) × ((m s).0 ≡ some a)

module _ {S A : Type 0} where
  pub Total-pure : (a : A) → Total {S = S} (pure a)
  Total-pure a = record { at = λ s. (a, refl) }

  pub Total-if : (b : Bool) (m n : Exec S A) → Total m → Total n → Total (if b then m else n)
  Total-if true m n km kn = km
  Total-if false m n km kn = kn

  pub Total-try : (m : Exec S A) (a : A) → Total (try_except m (pure a))
  Total-try m a = record { at = λ s. try_except-Total m a s }

  pub Total-return_found :
      (rest : Exec S A) (o : Option A) → Total rest → Total (return_found rest o)
  Total-return_found rest none k = k
  Total-return_found rest (some a) k = Total-pure a

module _ {S A B : Type 0} where
  continue-Total :
      (f : A → Exec S B) (o : Option A) (a : A) (s : S)
      → o ≡ some a
      → ((x : A) → Total (f x))
      → (b : B) × ((continue o f s).0 ≡ some b)
  continue-Total f none a s e k = absurd (let no : ⊥ = cc in no)
  continue-Total f (some x) a s e k = (k x).at s

  pub Total-bind :
      (m : Exec S A) (f : A → Exec S B) → Total m → ((a : A) → Total (f a)) → Total (m >>= f)
  Total-bind m f t k = record {
    at = λ s. let (a, e) = t.at s in continue-Total f (m s).0 a (m s).1 e k;
  }
