-- ===== src/Anomaly/Writes.antt =====
-- services/anomaly_detector.py: what a write of an automatic rule does to the table of rules.
use django_waf.Base.{
  ◌≤◌, Bool, true, false, ◌≡◌, refl, sym, ap, inl, inr, some, Option-cases, is_some, [], ◌∷◌, ◌++◌,
  Text, In, In-middle, In-keep_if, NoChar, keep_if-append, length, arith,
}
use mathlib.Core.Path.{subst}
use django_waf.Anomaly.{
  auto, BlockRuleRow, Table, Lookup, Defaults, fits, matching, set_fields, agrees,
}
use django_waf.Anomaly.Store.{
  Written, wrote, integrity_error, multiple_objects, does_not_exist, Orm, OrmLaws, Documented,
  inserted, updated, found_several, lost_race, first, write_defaults, auto_rule_write_defaults,
  update_or_create_auto_rule, after_write, merge_into_winner,
}
use django_waf.Anomaly.Flags.{write_auto_rule, retry_without_duplicates}
use django_waf.Anomaly.Kept.{Kept, Kept-trans, Kept-append, Kept-replace, Follows-written}
use django_waf.Anomaly.Unique.{Unique, Unique-append, Unique-replace, fits-new_row, fits-auto}

-- A write that gives a row leaves that row in the table; a lost race leaves the winner.
abbrev pub Answers : Lookup → Written → Table → Type 0
Answers k (wrote row created) t = In row t × (fits k row ≡ true)
Answers k integrity_error t = is_some (first (matching k t)) ≡ true
Answers k multiple_objects t = ⊥
Answers k does_not_exist t = ⊥

pub record Settled (k : Lookup) (t : Table) (w : Written) (t' : Table) : Type 0 where
  pub unique : Unique t'
  pub kept : Kept t t'
  pub answers : Answers k w t'

inserted-Settled :
    (k : Lookup) (t : Table) (row : BlockRuleRow)
    → matching k t ≡ []
    → fits k row ≡ true
    → Unique t
    → Settled k t (wrote row true) (t ++ row ∷ [])
inserted-Settled k t row e h u = record {
  unique = Unique-append k t row e h u;
  kept = Kept-append t (row ∷ []);
  answers = (In-middle row t [], h);
}

lost_race-Settled :
    (k : Lookup) (t : Table) (other : BlockRuleRow)
    → matching k t ≡ []
    → fits k other ≡ true
    → Unique t
    → Settled k t integrity_error (t ++ other ∷ [])
lost_race-Settled k t other e h u = record {
  unique = Unique-append k t other e h u;
  kept = Kept-append t (other ∷ []);
  answers = rw (keep_if-append (fits k) t (other ∷ [])) (rw (e, h) refl);
}

updated-Settled :
    (k : Lookup) (d : Defaults) (detector_name : Text) (t earlier later : Table)
    (row : BlockRuleRow)
    → t ≡ earlier ++ row ∷ later
    → k.source ≡ auto
    → NoChar b',' detector_name
    → fits k row ≡ true
    → Unique t
    → Settled k t
        (wrote (set_fields (write_defaults (some row) d detector_name) row) false)
        (earlier ++ set_fields (write_defaults (some row) d detector_name) row ∷ later)
unfolding fits agrees
updated-Settled k d detector_name t earlier later row es e n h u =
    let d' = write_defaults (some row) d detector_name in
    record {
      unique = Unique-replace earlier later row d' (subst Unique es u);
      kept =
          subst (λ x. Kept x (earlier ++ set_fields d' row ∷ later)) (sym es)
            (Kept-replace earlier later row (set_fields d' row)
              (Follows-written row d detector_name (fits-auto k row e h) n));
      answers = (In-middle (set_fields d' row) earlier later, h);
    }

fits-of_matching :
    (k : Lookup) (t : Table) (row : BlockRuleRow) → matching k t ≡ row ∷ [] → fits k row ≡ true
fits-of_matching k t row e =
    (In-keep_if (fits k) t (subst (λ rows. In row rows) (sym e) (inl refl))).1

several-Unique : (k : Lookup) (t : Table) → 2 ≤ length (matching k t) → k.source ≡ auto → ¬ Unique t
unfolding Unique
several-Unique k t h a u = omega (arith, h, u k a)

Documented-Settled :
    (k : Lookup) (d : Defaults) (detector_name : Text) (t : Table) (w : Written) (t' : Table)
    → Documented k (auto_rule_write_defaults k d detector_name t).1 t w t'
    → k.source ≡ auto
    → NoChar b',' detector_name
    → Unique t
    → Settled k t w t'
unfolding auto_rule_write_defaults
Documented-Settled k d name t w t' (inserted id at e ew et) a n u =
    rw (ew, et)
      (inserted-Settled k t _ e (fits-new_row id at k (auto_rule_write_defaults k d name t).1) u)
Documented-Settled k d name t w t' (updated earlier later row es e ew et) a n u =
    rw (ew, et, ap (λ rows. write_defaults (first rows) d name) e)
      (updated-Settled k d name t earlier later row es a n (fits-of_matching k t row e) u)
Documented-Settled k d name t w t' (found_several h ew et) a n u = absurd (several-Unique k t h a u)
Documented-Settled k d name t w t' (lost_race other e h ew et) a n u =
    rw (ew, et) (lost_race-Settled k t other e h u)

-- Only a write that finds no row loses the race.
integrity_error-matching :
    (k : Lookup) (d : Defaults) (t : Table) (w : Written) (t' : Table)
    → Documented k d t w t'
    → w ≡ integrity_error
    → matching k t ≡ []
integrity_error-matching k d t w t' (inserted id at e ew et) h = e
integrity_error-matching k d t w t' (updated earlier later row es e ew et) h = cc
integrity_error-matching k d t w t' (found_several l ew et) h = cc
integrity_error-matching k d t w t' (lost_race other e l ew et) h = e

-- A write that gives a row.
pub data Wrote (k : Lookup) (t : Table) (w : Written × Table) : Type 0 where
  gave :
      (row : BlockRuleRow) (created : Bool) (t' : Table)
      → w ≡ (wrote row created, t')
      → Settled k t (wrote row created) t'
      → Wrote k t w

module _ (orm : Orm) (laws : OrmLaws orm) (k : Lookup) (a : k.source ≡ auto) (d : Defaults)
    (name : Text) (n : NoChar b',' name) where
  settled :
      (t : Table)
      → Unique t
      → Settled k t
          (orm.update_or_create k (auto_rule_write_defaults k d name t).1 t).0
          (orm.update_or_create k (auto_rule_write_defaults k d name t).1 t).1
  settled t u = Documented-Settled k d name t _ _ (laws.documented k _ t) a n u

  gave_second :
      (t : Table)
      → is_some (first (matching k t)) ≡ true
      → (w : Written) (t' : Table) → (w ≡ integrity_error → matching k t ≡ [])
      → Settled k t w t'
      → Wrote k t (w, t')
  gave_second t there (wrote row created) t' no_race s = gave row created t' refl s
  gave_second t there integrity_error t' no_race s =
      absurd (let no : ⊥ = cc (rw (no_race refl) at there) in no)
  gave_second t there multiple_objects t' no_race s = absurd s.answers
  gave_second t there does_not_exist t' no_race s = absurd s.answers

  merged-Wrote :
      (t : Table)
      → Unique t
      → is_some (first (matching k t)) ≡ true
      → Wrote k t (merge_into_winner orm (auto_rule_write_defaults k d name t) k t)
  unfolding merge_into_winner auto_rule_write_defaults
  merged-Wrote t u there = elim (Option-cases (first (matching k t))) [
    | inl e ↦ absurd (let no : ⊥ = cc (rw e at there) in no)
    | inr (winner, e) ↦ rw e (
        gave_second t there _ _
          (integrity_error-matching k _ t _ _
            (laws.documented k (write_defaults (some winner) d name) t))
          (rw e at (settled t u)))
  ]

  after_write-Wrote :
      (t : Table) (w : Written) (t' : Table)
      → Settled k t w t'
      → Wrote k t (after_write orm w k d name t')
  unfolding after_write
  after_write-Wrote t (wrote row created) t' s = gave row created t' refl s
  after_write-Wrote t integrity_error t' s = elim (merged-Wrote t' s.unique s.answers) [
    | gave row created t2 e s2 ↦ gave row created t2 e (record {
      unique = s2.unique;
      kept = Kept-trans t t' t2 s.kept s2.kept;
      answers = s2.answers;
    })
  ]
  after_write-Wrote t multiple_objects t' s = absurd s.answers
  after_write-Wrote t does_not_exist t' s = absurd s.answers

  update_or_create-Wrote :
      (t : Table) → Unique t → Wrote k t (update_or_create_auto_rule orm k d name t)
  unfolding update_or_create_auto_rule
  update_or_create-Wrote t u = after_write-Wrote t _ _ (settled t u)

  -- Where no two automatic rules share a key, a write gives a row.
  pub write_auto_rule-Wrote : (t : Table) → Unique t → Wrote k t (write_auto_rule orm k d name t)
  unfolding write_auto_rule retry_without_duplicates
  write_auto_rule-Wrote t u = elim (update_or_create-Wrote t u) [
    | gave row created t' e s ↦ gave row created t' (rw e refl) s
  ]
