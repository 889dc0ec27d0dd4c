-- ===== src/Forms/Protection/Order.antt =====
-- The order of the defences depends on which names are configured, not on how they are listed.
use django_waf.Base.{
  ◌∙◌, ◌⊎◌, ℕ, ◌≡◌, ◌↔◌, refl, sym, Bool, true, false, not, some, List, [], ◌∷◌, Text, ◌=ᵗ◌, =ᵗ_iff,
  keep_if, keep_if-congr, All, All-of_each, In, arith, Bool-cases, inl, inr,
}
use django_waf.Forms.Context.{Config}
use django_waf.Forms.Defences.{DefenceName, name_text}
use django_waf.Forms.Protection.{
  canonical_order, has_name, order_defences, FormProtection, is_known, form_protection, with_names,
}

unfoldable pub SameNames : List Text → List Text → Type 0
SameNames names names' = (t : Text) → In t names ↔ In t names'

has_name→In :
    (names : List Text) (d : DefenceName) → has_name names d ≡ true → In (name_text d) names
has_name→In [] d e = cc
has_name→In (n ∷ names) d e = elim (Bool-cases (n =ᵗ name_text d)) [
  | inl h ↦ inl (sym ((=ᵗ_iff n (name_text d)).0 h))
  | inr h ↦ inr (has_name→In names d (rw h at e))
]

In→has_name :
    (names : List Text) (d : DefenceName) → In (name_text d) names → has_name names d ≡ true
In→has_name [] d i = absurd i
In→has_name (n ∷ names) d (inl e) = rw ((=ᵗ_iff n (name_text d)).1 (sym e)) refl
In→has_name (n ∷ names) d (inr i) = rw (In→has_name names d i) (ground arith)

iff→eq : (a b : Bool) → (a ≡ true → b ≡ true) → (b ≡ true → a ≡ true) → a ≡ b
iff→eq true b f g = sym (f refl)
iff→eq false true f g = g refl
iff→eq false false f g = refl

-- Two lists that name the same defences, in any order and any number of times, give the same chain:
-- the names of the canonical order that are in them.
pub order_defences-SameNames :
    (names names' : List Text)
    → SameNames names names'
    → order_defences names ≡ order_defences names'
unfolding order_defences SameNames
order_defences-SameNames names names' same =
    keep_if-congr (has_name names) (has_name names') canonical_order (
      All-of_each (λ d. has_name names d ≡ has_name names' d)
        (λ d.
          iff→eq (has_name names d) (has_name names' d)
            (λ h. In→has_name names' d ((same (name_text d)).0 (has_name→In names d h)))
            (λ h. In→has_name names d ((same (name_text d)).1 (has_name→In names' d h))))
        canonical_order)

abbrev unknown : List Text → List Text
unknown = keep_if (λ n. not (is_known n))

unknown-empty :
    (defences : List Text) → (unknown defences ≡ []) ↔ All (λ n. is_known n ≡ true) defences
unknown-empty [] = (λ _. tt, λ _. refl)
unknown-empty (n ∷ defences) = elim (Bool-cases (is_known n)) [
  | inl k ↦ let (f, g) = unknown-empty defences in ((λ e. (k, f (rw k at e))), (λ h. rw k (g h.1)))
  | inr k ↦ (
    (λ e. absurd (let no : ⊥ = cc (rw k at e) in no)),
    (λ h. absurd (let no : true ≡ false = sym h.0 ∙ k in let no' : ⊥ = cc in no')),
  )
]

empty_or_cons : (xs : List Text) → (xs ≡ []) ⊎ ((x : Text) × (rest : List Text) × (xs ≡ x ∷ rest))
empty_or_cons [] = inl refl
empty_or_cons (x ∷ xs) = inr (x, xs, refl)

-- If every name is one of the eight, a form is constructed, which runs them in the canonical order;
-- if one is not, none is.
pub form_protection-known :
    (form_id : Text) (defences : List Text) (weights : List (Text × ℕ)) (skip : Bool)
    (config : Config)
    → (All (λ n. is_known n ≡ true) defences
        → (form : FormProtection) × (form_protection form_id defences weights skip config
            ≡ some form)
          × (form.defence_names ≡ order_defences defences))
      × ((form : FormProtection)
          → form_protection form_id defences weights skip config ≡ some form
          → All (λ n. is_known n ≡ true) defences)
unfolding form_protection
form_protection-known form_id defences weights skip config =
    let (f, g) = unknown-empty defences in
    (
      (λ h.
          (with_names form_id defences weights skip config, rw (form_protection, g h) refl, refl)),
      λ form e. elim (empty_or_cons (unknown defences)) [
        | inl h ↦ f h
        | inr (x, rest, h) ↦ absurd (let no : ⊥ = cc (rw (form_protection, h) at e) in no)
      ],
    )
