-- ===== src/Anomaly/Unique.antt =====
-- models.py: the partial constraint that no two automatic rules have the same key.
use django_waf.Base.{
  ℕ, ◌≤◌, true, ◌≡◌, refl, sym, ◌∙◌, inl, inr, [], ◌∷◌, ◌++◌, Text, =ᵗ_iff, =ᵗ_refl, keep_if-append,
  keep_if-congr, All-of_each, length, length-append, Bool-cases, arith,
}
use django_waf.Anomaly.{
  auto, BlockRuleRow, Table, Lookup, Defaults, fits, matching, set_fields, type_number,
  action_number, source_number, new_row, agrees,
}

unfoldable pub Unique : Table → Type 0
Unique t = (k : Lookup) → k.source ≡ auto → length (matching k t) ≤ 1

-- The four parts of a key.
record Agrees (rule_type : ℕ) (pattern : Text) (source action : ℕ) (row : BlockRuleRow)
    : Type 0 where
  same_type : rule_type ≡ type_number row.rule_type
  same_pattern : pattern ≡ row.pattern
  same_source : source ≡ source_number row.source
  same_action : action ≡ action_number row.action

agrees-Agrees :
    (rule_type : ℕ) (pattern : Text) (source action : ℕ) (row : BlockRuleRow)
    → agrees rule_type pattern source action row ≡ true
    → Agrees rule_type pattern source action row
unfolding agrees
agrees-Agrees rule_type pattern source action row h = record {
  same_type = ground arith;
  same_pattern = ground (arith, =ᵗ_iff pattern row.pattern);
  same_source = ground arith;
  same_action = ground arith;
}

-- Two lookups that find one common row find the same rows.
fits-fits :
    (k k' : Lookup) (shared row : BlockRuleRow)
    → fits k shared ≡ true
    → fits k' shared ≡ true
    → fits k' row ≡ fits k row
unfolding fits
fits-fits k k' shared row e e' =
    let a = agrees-Agrees _ _ _ _ shared e in
    let b = agrees-Agrees _ _ _ _ shared e' in
    let t = b.same_type ∙ sym a.same_type in
    let p = b.same_pattern ∙ sym a.same_pattern in
    let s = b.same_source ∙ sym a.same_source in let c = b.same_action ∙ sym a.same_action in cc

pub fits-new_row : (id at : ℕ) (k : Lookup) (d : Defaults) → fits k (new_row id at k d) ≡ true
unfolding fits agrees
fits-new_row id at k d = ground (arith, =ᵗ_refl k.pattern)

pub fits-auto :
    (k : Lookup) (row : BlockRuleRow) → k.source ≡ auto → fits k row ≡ true → row.source ≡ auto
unfolding fits agrees
fits-auto k row e h = ground arith

pub Unique-append :
    (k : Lookup) (t : Table) (row : BlockRuleRow)
    → matching k t ≡ []
    → fits k row ≡ true
    → Unique t
    → Unique (t ++ row ∷ [])
unfolding Unique
Unique-append k t row none_yet h u k' e =
    rw (keep_if-append (fits k') t (row ∷ [])) (elim (Bool-cases (fits k' row)) [
      | inl same ↦
          let empty : matching k' t ≡ [] =
            keep_if-congr (fits k') (fits k) t (All-of_each _ (λ r. fits-fits k k' row r h same) t)
            ∙ none_yet in
          rw (empty, same) (omega arith)
      | inr other ↦ rw (other, length-append (matching k' t) []) (omega (arith, u k' e))
    ])

length-matching :
    (k : Lookup) (earlier later : Table) (row row' : BlockRuleRow)
    → fits k row' ≡ fits k row
    → length (matching k (earlier ++ row' ∷ later)) ≡ length (matching k (earlier ++ row ∷ later))
length-matching k [] later row row' e = elim (Bool-cases (fits k row)) [
  | inl h ↦ rw (e, h) refl
  | inr h ↦ rw (e, h) refl
]
length-matching k (r ∷ earlier) later row row' e =
    ground (arith, length-matching k earlier later row row' e)

pub Unique-replace :
    (earlier later : Table) (row : BlockRuleRow) (d : Defaults)
    → Unique (earlier ++ row ∷ later)
    → Unique (earlier ++ set_fields d row ∷ later)
unfolding Unique fits agrees
Unique-replace earlier later row d u k e =
    omega (arith, u k e, length-matching k earlier later row (set_fields d row) refl)
