-- ===== src/Rules/Patterns/Shapes.antt =====
-- Which patterns are refused.
use django_waf.Base.{
  ℕ, ◌≤◌, ◌≡◌, ◌↔◌, refl, sym, ap, ◌∙◌, Bool, true, false, ◌&&◌, Option, none, some, [], ◌∷◌, ◌++◌,
  Text, ◌==◌, if◌then◌else◌, is_empty, any, length, All, arith, Bool-cases, Option-cases, inl, inr,
  ==_iff,
}
use mathlib.Core.Path.{subst}
use django_waf.Rules.Patterns.{
  is_quantifier, is_bar, is_paren, quantified, with_first, group_of, inside, has_group,
  validate_ua_regex_pattern,
}

abbrev NoParens : Text → Type 0
NoParens = All (λ ch. is_paren ch ≡ false)

-- What follows an opening parenthesis is the inside of a group, its end and a quantifier.
abbrev Closes : Text → Text → Type 0
Closes inner s =
    (q : ℕ) × (b : Text) × (s ≡ inner ++ b')' ∷ q ∷ b) × NoParens inner × (is_quantifier q ≡ true)

-- The text has a group, with no groups inside, that is repeated and has a character of kind `p`.
pub HasShape : (ℕ → Bool) → Text → Type 0
HasShape p s =
    (a : Text) × (inner : Text) × (q : ℕ) × (b : Text) × (s ≡ a ++ b'(' ∷ inner ++ b')' ∷ q ∷ b)
    × NoParens inner
    × (is_quantifier q ≡ true)
    × (any p inner ≡ true)

closed_lem :
    (ch : ℕ) (s : Text) (inner : Text)
    → (if ch == b')' && quantified s then some [] else none) ≡ some inner
    → Closes inner (ch ∷ s)
closed_lem ch [] inner e = elim (Bool-cases (ch == b')')) [
  | inl h ↦ absurd (let no : ⊥ = cc (rw h at e) in no)
  | inr h ↦ absurd (let no : ⊥ = cc (rw h at e) in no)
]
closed_lem ch (q ∷ s) inner e = elim (Bool-cases (ch == b')')) [
  | inr h ↦ absurd (let no : ⊥ = cc (rw h at e) in no)
  | inl h ↦ elim (Bool-cases (is_quantifier q)) [
    | inr k ↦ absurd (let no : ⊥ = cc (rw (h, k) at e) in no)
    | inl k ↦
        let nothing : [] ≡ inner = cc (rw (h, k) at e) in
        subst (λ i. Closes i (ch ∷ q ∷ s)) nothing
          (q, s, ap (λ x. x ∷ q ∷ s) ((==_iff ch b')').0 h), tt, k)
  ]
]

group_of-Closes : (s inner : Text) → group_of s ≡ some inner → Closes inner s
unfolding group_of with_first
group_of-Closes [] inner e = absurd (let no : ⊥ = cc in no)
group_of-Closes (ch ∷ s) inner e = elim (Bool-cases (is_paren ch)) [
  | inl h ↦ closed_lem ch s inner (rw h at e)
  | inr h ↦ elim (Option-cases (group_of s)) [
    | inl g ↦ absurd (let no : ⊥ = cc (rw (h, g) at e) in no)
    | inr (rest, g) ↦
        let (q, b, same, free, is) = group_of-Closes s rest g in
        let whole : ch ∷ rest ≡ inner = cc (rw (h, g) at e) in
        subst (λ i. Closes i (ch ∷ s)) whole (q, b, ap (λ t. ch ∷ t) same, (h, free), is)
  ]
]

Closes-group_of :
    (inner : Text) (q : ℕ) (b : Text)
    → NoParens inner
    → is_quantifier q ≡ true
    → group_of (inner ++ b')' ∷ q ∷ b) ≡ some inner
unfolding group_of with_first
Closes-group_of [] q b _ is = rw is refl
Closes-group_of (ch ∷ inner) q b (h, free) is = rw (h, Closes-group_of inner q b free is) refl

inside-some :
    (p : ℕ → Bool) (o : Option Text)
    → inside p o ≡ true
    → (inner : Text) × (o ≡ some inner) × (any p inner ≡ true)
unfolding inside
inside-some p none e = absurd (let no : ⊥ = cc in no)
inside-some p (some inner) e = (inner, refl, e)

has_group-HasShape : (p : ℕ → Bool) (s : Text) → has_group p s ≡ true → HasShape p s
unfolding has_group HasShape
has_group-HasShape p [] e = absurd (let no : ⊥ = cc in no)
has_group-HasShape p (ch ∷ s) e = elim (Bool-cases (ch == b'(' && inside p (group_of s))) [
  | inl h ↦
      let (inner, found, has) = inside-some p (group_of s) (ground (arith, h)) in
      let (q, b, same, free, is) = group_of-Closes s inner found in
      let opens : ch ≡ b'(' = (==_iff ch b'(').0 (ground (arith, h)) in
      ([], inner, q, b, rw (opens, same) refl, free, is, has)
  | inr h ↦
      let (a, inner, q, b, same, free, is, has) = has_group-HasShape p s (rw h at e) in
      (ch ∷ a, inner, q, b, ap (λ t. ch ∷ t) same, free, is, has)
]

HasShape-has_group :
    (p : ℕ → Bool) (a inner : Text) (q : ℕ) (b : Text)
    → NoParens inner
    → is_quantifier q ≡ true
    → any p inner ≡ true
    → has_group p (a ++ b'(' ∷ inner ++ b')' ∷ q ∷ b) ≡ true
unfolding has_group inside
HasShape-has_group p [] inner q b free is has = rw (Closes-group_of inner q b free is, has) refl
HasShape-has_group p (ch ∷ a) inner q b free is has =
    rw (HasShape-has_group p a inner q b free is has) (ground arith)

shape_iff : (p : ℕ → Bool) (s : Text) → (has_group p s ≡ true) ↔ HasShape p s
unfolding HasShape
shape_iff p s = (
  has_group-HasShape p s,
  λ h.
      let (a, inner, q, b, same, free, is, has) = h in
      rw same (HasShape-has_group p a inner q b free is has),
)

absent_iff : (p : ℕ → Bool) (s : Text) → (has_group p s ≡ false) ↔ (HasShape p s → ⊥)
absent_iff p s =
    let (f, g) = shape_iff p s in
    (
      (λ e shape. let no : true ≡ false = sym (g shape) ∙ e in let no' : ⊥ = cc in no'),
      λ none. elim (Bool-cases (has_group p s)) [ inl e ↦ absurd (none (f e)) | inr e ↦ e ],
    )

module _ (compiles : Text → Bool) (pattern : Text) where
  tests_iff : (validate_ua_regex_pattern compiles pattern ≡ none) ↔ (
      (is_empty pattern ≡ false)
      × (length pattern ≤ 512)
      × (compiles pattern ≡ true)
      × (has_group is_quantifier pattern ≡ false)
      × (has_group is_bar pattern ≡ false))
  unfolding validate_ua_regex_pattern
  tests_iff = ground arith

  -- A pattern is accepted exactly if it is not empty, has at most 512 characters, compiles, and has
  -- neither a group without inner groups that has a quantifier inside and is itself repeated, nor one
  -- that has an alternation inside and is repeated.
  pub validate_ua_regex_pattern_iff : (validate_ua_regex_pattern compiles pattern ≡ none) ↔ (
      (is_empty pattern ≡ false)
      × (length pattern ≤ 512)
      × (compiles pattern ≡ true)
      × (HasShape is_quantifier pattern → ⊥)
      × (HasShape is_bar pattern → ⊥))
  validate_ua_regex_pattern_iff =
      let (f, g) = tests_iff in
      let (nested, un_nested) = absent_iff is_quantifier pattern in
      let (barred, un_barred) = absent_iff is_bar pattern in
      (
        (λ e.
            let (given, short, valid, no_nested, no_bar) = f e in
            (given, short, valid, nested no_nested, barred no_bar)),
        λ h.
            let (given, short, valid, no_nested, no_bar) = h in
            g (given, short, valid, un_nested no_nested, un_barred no_bar),
      )
