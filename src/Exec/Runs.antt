-- ===== src/Exec/Runs.antt =====
-- Total correctness with a relation of states: from a state with `P` an action gives a value with
-- `Q`, and leaves a state with `P` that `R` relates to the first.
use django_waf.Base.{◌≡◌, refl, Bool, true, false, Option, some, if◌then◌else◌}
use django_waf.Exec.{Exec, pure, continue, ◌>>=◌}

pub record Preorder {S : Type 0} (R : S → S → Type 0) : Type 0 where
  pub reflexive : (s : S) → R s s
  pub transitive : (s t u : S) → R s t → R t u → R s u

pub record Ran {S A : Type 0} (P : S → Type 0) (R : S → S → Type 0) (Q : A → Type 0) (s : S)
    (result : Option A × S) : Type 0 where
  pub value : A
  pub gives : result.0 ≡ some value
  pub holds : Q value
  pub after : P result.1
  pub moved : R s result.1

pub record Runs {S A : Type 0} (P : S → Type 0) (R : S → S → Type 0) (Q : A → Type 0) (m : Exec S A)
    : Type 0 where
  pub at : (s : S) → P s → Ran P R Q s (m s)

pub data Anything {A : Type 0} (a : A) : Type 0 where
  trivial : Anything a

module _ {S : Type 0} (P : S → Type 0) (R : S → S → Type 0) (o : Preorder R) where
  pub Runs-pure : {A : Type 0} (Q : A → Type 0) (a : A) → Q a → Runs P R Q (pure a)
  Runs-pure Q a q = record {
    at = λ s p. record { value = a; gives = refl; holds = q; after = p; moved = o.reflexive s };
  }

  Ran-continue :
      {A B : Type 0} (Q : A → Type 0) (Q' : B → Type 0) (f : A → Exec S B) (s t : S)
      (found : Option A)
      → Ran P R Q s (found, t)
      → ((a : A) → Q a → Runs P R Q' (f a))
      → Ran P R Q' s (continue found f t)
  Ran-continue Q Q' f s t found h k =
      let next = (k h.value h.holds).at t h.after in
      rw h.gives (record {
        value = next.value;
        gives = next.gives;
        holds = next.holds;
        after = next.after;
        moved = o.transitive _ _ _ h.moved next.moved;
      })

  pub Runs-bind :
      {A B : Type 0} (Q : A → Type 0) (Q' : B → Type 0) (m : Exec S A) (f : A → Exec S B)
      → Runs P R Q m
      → ((a : A) → Q a → Runs P R Q' (f a))
      → Runs P R Q' (m >>= f)
  Runs-bind Q Q' m f h k = record { at = λ s p. Ran-continue Q Q' f s (m s).1 (m s).0 (h.at s p) k }

pub Runs-if :
    {S A : Type 0} (P : S → Type 0) (R : S → S → Type 0) (Q : A → Type 0) (b : Bool)
    (m n : Exec S A)
    → (b ≡ true → Runs P R Q m)
    → (b ≡ false → Runs P R Q n)
    → Runs P R Q (if b then m else n)
Runs-if P R Q true m n h k = h refl
Runs-if P R Q false m n h k = k refl
