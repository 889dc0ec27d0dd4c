-- ===== src/Exec.antt =====
-- Code that talks to a server and may raise: a state that is passed on, and `none` for an
-- exception. What was written before a raise stays written.
pub mod Ensures
pub mod EnsuresAt
pub mod Total
pub mod Runs
use django_waf.Base.{◌≡◌, refl, inl, inr, Option, none, some, Option-cases}

abbrev pub Exec : Type 0 → Type 0 → Type 0
Exec S A = S → Option A × S

module _ {S A : Type 0} where
  abbrev pub pure : A → Exec S A
  pure a s = (some a, s)

  abbrev pub raise : Exec S A
  raise s = (none, s)

  -- `try: m  except Exception: handler`
  abbrev handle : Option A → Exec S A → Exec S A
  handle (some a) h s = (some a, s)
  handle none h s = h s

  abbrev pub try_except : Exec S A → Exec S A → Exec S A
  try_except m h s = let (r, s') = m s in handle r h s'

  -- `if x is not None: return x`, else go on.
  abbrev pub return_found : Exec S A → Option A → Exec S A
  return_found rest none = rest
  return_found rest (some a) = pure a

module _ {S A B : Type 0} where
  abbrev pub continue : Option A → (A → Exec S B) → Exec S B
  continue (some a) f s = f a s
  continue none f s = (none, s)

  infixl 5 ◌>>=◌ ◌>>◌
  abbrev pub ◌>>=◌ : Exec S A → (A → Exec S B) → Exec S B
  ◌>>=◌ action rest = λ s. continue (action s).0 rest (action s).1

  abbrev pub ◌>>◌ : Exec S A → Exec S B → Exec S B
  ◌>>◌ action next s = continue (action s).0 (λ _. next) (action s).1

-- With a handler that raises nothing, `try` raises nothing.
pub try_except-Total :
    {S A : Type 0} (m : Exec S A) (a : A) (s : S) → (b : A) × ((try_except m (pure a) s).0 ≡ some b)
try_except-Total m a s = elim (Option-cases (m s).0) [
  | inl e ↦ (a, rw e refl)
  | inr (b, e) ↦ (b, rw e refl)
]
