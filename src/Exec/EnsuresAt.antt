-- ===== src/Exec/EnsuresAt.antt =====
-- What holds of every value that an action returns from one state, and of the state that it leaves;
-- and the actions that leave the state as it is.
use django_waf.Base.{◌≡◌, refl, sym, ◌∙◌, Bool, true, false, Option, none, some, if◌then◌else◌}
use mathlib.Core.Path.{subst}
use django_waf.Exec.{Exec, pure, raise, handle, try_except, continue, return_found, ◌>>=◌}
use django_waf.Exec.Ensures.{Ensures}

pub record EnsuresAt {S A : Type 0} (s : S) (P : A → S → Type 0) (m : Exec S A) : Type 0 where
  pub at : (a : A) → (m s).0 ≡ some a → P a (m s).1

module _ {S A : Type 0} (s : S) (P : A → S → Type 0) where
  pub EnsuresAt-pure : (a : A) → P a s → EnsuresAt s P (pure a)
  EnsuresAt-pure a p = record { at = λ b e. let same : a ≡ b = cc in subst (λ x. P x s) same p }

  pub EnsuresAt-if :
      (b : Bool) (m n : Exec S A)
      → (b ≡ true → EnsuresAt s P m)
      → (b ≡ false → EnsuresAt s P n)
      → EnsuresAt s P (if b then m else n)
  EnsuresAt-if true m n km kn = km refl
  EnsuresAt-if false m n km kn = kn refl

  pub EnsuresAt-return_found :
      (rest : Exec S A) (o : Option A)
      → (o ≡ none → EnsuresAt s P rest)
      → ((a : A) → o ≡ some a → P a s)
      → EnsuresAt s P (return_found rest o)
  EnsuresAt-return_found rest none k p = k refl
  EnsuresAt-return_found rest (some a) k p = EnsuresAt-pure a (p a refl)

module _ {S A B : Type 0} (P : B → S → Type 0) where
  EnsuresAt-continue :
      (f : A → Exec S B) (o : Option A) (s : S)
      → ((a : A) → o ≡ some a → EnsuresAt s P (f a))
      → (b : B) → (continue o f s).0 ≡ some b
      → P b (continue o f s).1
  EnsuresAt-continue f none s k b e = absurd (let no : ⊥ = cc in no)
  EnsuresAt-continue f (some a) s k b e = (k a refl).at b e

  pub EnsuresAt-bind :
      (s : S) (Q : A → S → Type 0) (m : Exec S A) (f : A → Exec S B)
      → EnsuresAt s Q m
      → ((a : A) (t : S) → Q a t → EnsuresAt t P (f a))
      → EnsuresAt s P (m >>= f)
  EnsuresAt-bind s Q m f q k = record {
    at = λ b e. EnsuresAt-continue f (m s).0 (m s).1 (λ a same. k a (m s).1 (q.at a same)) b e;
  }

pub Ensures-EnsuresAt :
    {S A : Type 0} (s : S) (P : A → Type 0) (m : Exec S A)
    → Ensures P m
    → EnsuresAt s (λ a t. P a) m
Ensures-EnsuresAt s P m h = record { at = λ a e. h.at s a e }

-- The action leaves the state as it is, whether it returns or raises.
pub record Reads {S A : Type 0} (m : Exec S A) : Type 0 where
  pub stays : (s : S) → (m s).1 ≡ s

module _ {S A : Type 0} where
  pub Reads-pure : (a : A) → Reads {S = S} (pure a)
  Reads-pure a = record { stays = λ s. refl }

  pub Reads-raise : Reads {S = S} {A = A} raise
  Reads-raise = record { stays = λ s. refl }

  pub Reads-if : (b : Bool) (m n : Exec S A) → Reads m → Reads n → Reads (if b then m else n)
  Reads-if true m n km kn = km
  Reads-if false m n km kn = kn

  handle_stays : (o : Option A) (a : A) (s : S) → (handle o (pure a) s).1 ≡ s
  handle_stays none a s = refl
  handle_stays (some b) a s = refl

  pub Reads-try : (m : Exec S A) (a : A) → Reads m → Reads (try_except m (pure a))
  Reads-try m a k = record { stays = λ s. handle_stays (m s).0 a (m s).1 ∙ k.stays s }

  handle-holds :
      (P : A → Type 0) (o : Option A) (a b : A) (s : S)
      → ((c : A) → o ≡ some c → P c)
      → P a
      → (handle o (pure a) s).0 ≡ some b
      → P b
  handle-holds P none a b s k p e = let same : a ≡ b = cc in subst P same p
  handle-holds P (some c) a b s k p e = k b e

  pub EnsuresAt-try :
      (s : S) (P : A → Type 0) (m : Exec S A) (a : A)
      → EnsuresAt s (λ b t. P b) m
      → P a
      → EnsuresAt s (λ b t. P b) (try_except m (pure a))
  EnsuresAt-try s P m a k p = record { at = λ b e. handle-holds P (m s).0 a b (m s).1 k.at p e }

module _ {S A B : Type 0} where
  continue_stays :
      (f : A → Exec S B) (o : Option A) (s : S) → ((a : A) → Reads (f a)) → (continue o f s).1 ≡ s
  continue_stays f none s k = refl
  continue_stays f (some a) s k = (k a).stays s

  pub Reads-bind :
      (m : Exec S A) (f : A → Exec S B) → Reads m → ((a : A) → Reads (f a)) → Reads (m >>= f)
  Reads-bind m f k h = record { stays = λ s. continue_stays f (m s).0 (m s).1 h ∙ k.stays s }

  -- What follows a read starts from the same state.
  pub EnsuresAt-read :
      (P : B → S → Type 0) (s : S) (Q : A → Type 0) (m : Exec S A) (f : A → Exec S B)
      → Reads m
      → EnsuresAt s (λ a t. Q a) m
      → ((a : A) → Q a → EnsuresAt s P (f a))
      → EnsuresAt s P (m >>= f)
  EnsuresAt-read P s Q m f reads q k =
      EnsuresAt-bind P s (λ a t. Q a × (t ≡ s)) m f
        (record { at = λ a e. (q.at a e, reads.stays s) })
        (λ a t h. subst (λ u. EnsuresAt u P (f a)) (sym h.1) (k a h.0))
