-- ===== src/Examples/Orm.antt =====
-- A table of rules in memory, which keeps the laws of `update_or_create`.
use django_waf.Base.{
  true, false, ◌≡◌, refl, ap, [], ◌∷◌, ◌++◌, if◌then◌else◌, inl, inr, Bool-cases, length, arith,
}
use django_waf.Anomaly.{BlockRuleRow, Table, Lookup, Defaults, fits, matching, set_fields, new_row}
use django_waf.Anomaly.Store.{
  Written, wrote, multiple_objects, Orm, OrmLaws, Documented, inserted, updated, found_several,
}

set_first : Lookup → Defaults → Table → Table
set_first k d [] = []
set_first k d (row ∷ rows) =
    let rest = set_first k d rows in if fits k row then set_fields d row ∷ rows else row ∷ rest

answer : Lookup → Defaults → Table → Table → Written × Table
answer k d t [] =
    (wrote (new_row (length t) (length t) k d) true, t ++ new_row (length t) (length t) k d ∷ [])
answer k d t (row ∷ []) = (wrote (set_fields d row) false, set_first k d t)
answer k d t (row ∷ other ∷ rows) = (multiple_objects, t)

abbrev pub memory_orm : Orm
unfolding answer set_first
memory_orm = record { update_or_create = λ k d t. answer k d t (matching k t) }

record Split (k : Lookup) (d : Defaults) (t : Table) (row : BlockRuleRow) : Type 0 where
  earlier : Table
  later : Table
  parts : t ≡ earlier ++ row ∷ later
  result : set_first k d t ≡ earlier ++ set_fields d row ∷ later

Split-of_matching :
    (k : Lookup) (d : Defaults) (t : Table) (row : BlockRuleRow)
    → matching k t ≡ row ∷ []
    → Split k d t row
unfolding set_first
Split-of_matching k d [] row e = absurd (let no : ⊥ = cc in no)
Split-of_matching k d (r ∷ t) row e = elim (Bool-cases (fits k r)) [
  | inl h ↦
      let e' : r ∷ matching k t ≡ row ∷ [] = rw h at e in
      let same : r ≡ row = cc in
      record { earlier = []; later = t; parts = rw same refl; result = rw (h, same) refl }
  | inr h ↦
      let rest = Split-of_matching k d t row (rw h at e) in
      record {
        earlier = r ∷ rest.earlier;
        later = rest.later;
        parts = ap (λ x. r ∷ x) rest.parts;
        result = rw h (ap (λ x. r ∷ x) rest.result);
      }
]

answer-Documented :
    (k : Lookup) (d : Defaults) (t rows : Table)
    → matching k t ≡ rows
    → Documented k d t (answer k d t rows).0 (answer k d t rows).1
unfolding answer
answer-Documented k d t [] e = inserted (length t) (length t) e refl refl
answer-Documented k d t (row ∷ []) e =
    let s = Split-of_matching k d t row e in updated s.earlier s.later row s.parts e refl s.result
answer-Documented k d t (row ∷ other ∷ rows) e = found_several (rw e (omega arith)) refl refl

pub memory_orm-OrmLaws : OrmLaws memory_orm
unfolding memory_orm answer
memory_orm-OrmLaws = record { documented = λ k d t. answer-Documented k d t (matching k t) refl }
