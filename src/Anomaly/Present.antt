-- ===== src/Anomaly/Present.antt =====
-- services/anomaly_detector.py: a rule that a detector's loop proposes is in the table afterwards.
use django_waf.Base.{
  Bool, true, false, ◌≡◌, refl, Option, some, List, [], ◌∷◌, NoChar, In, inl, inr, if◌then◌else◌,
}
use mathlib.Core.Path.{subst}
use django_waf.Exec.Runs.{Ran, Anything}
use django_waf.Anomaly.{BlockRuleRow, Table, Lookup, fits, agrees}
use django_waf.Anomaly.Store.{
  Written, wrote, Orm, OrmLaws, AnomalyConf, Proposal, Run, Store, lookup_of, defaults_of,
}
use django_waf.Anomaly.Flags.{
  flag, flag_each, flag_each_by, write, report, get_or_create_auto_rule, write_auto_rule,
}
use django_waf.Anomaly.Kept.{Kept, Follows}
use django_waf.Anomaly.Unique.{Unique}
use django_waf.Anomaly.Writes.{gave, write_auto_rule-Wrote}
use django_waf.Anomaly.Loops.{IsNamed, Sane, Keeps, Keeps-Lawful, flag-Runs, flag_each-Runs}

-- A row with the key.
pub record Has (k : Lookup) (t : Table) : Type 0 where
  pub row : BlockRuleRow
  pub is_there : In row t
  pub fitting : fits k row ≡ true

fits-Follows :
    (k : Lookup) (row later : BlockRuleRow)
    → Follows row later
    → fits k row ≡ true
    → fits k later ≡ true
unfolding fits agrees
fits-Follows k row later f h = rw (f.same_type, f.same_pattern, f.same_source, f.same_action) h

Has-Kept : (k : Lookup) (t t' : Table) → Kept t t' → Has k t → Has k t'
Has-Kept k t t' kept h =
    let (later, i, f) = kept.at h.row h.is_there in
    record { row = later; is_there = i; fitting = fits-Follows k h.row later f h.fitting }

if-false : {A : Type 0} (b : Bool) (x y : A) → b ≡ false → (if b then x else y) ≡ y
if-false true x y h = cc
if-false false x y h = refl

module _ {E : Type 0} (orm : Orm) (laws : OrmLaws orm) (conf : AnomalyConf) (run : Run)
    (wet : run.dry_run ≡ false) where
  report-rules :
      (p : Proposal) (row : BlockRuleRow) (created : Bool) (s : Store E)
      → (report orm conf run p (row, created) s).1.rules ≡ s.rules
  unfolding report
  report-rules p row false s = refl
  report-rules p row true s = rw wet refl

  written : Proposal → Store E → Written × Table
  written p s = write_auto_rule orm (lookup_of p) (defaults_of conf run p) p.detector_name s.rules

  get_or_create-write :
      (p : Proposal) → get_or_create_auto_rule {E = E} orm conf run p ≡ write orm conf run p
  unfolding get_or_create_auto_rule
  get_or_create-write p = if-false run.dry_run _ (write orm conf run p) wet

  flag-rules :
      (p : Proposal) (s : Store E) (row : BlockRuleRow) (created : Bool) (t' : Table)
      → written p s ≡ (wrote row created, t')
      → (flag orm conf run (some p) s).1.rules ≡ t'
  unfolding flag write written
  flag-rules p s row created t' e =
      rw (get_or_create-write p, e) (report-rules p row created (record s { rules = t' }))

  flag-Has :
      (p : Proposal) (s : Store E)
      → NoChar b',' p.detector_name
      → Unique s.rules
      → Has (lookup_of p) (flag orm conf run (some p) s).1.rules
  unfolding written
  flag-Has p s n u =
      elim (write_auto_rule-Wrote orm laws (lookup_of p) refl (defaults_of conf run p)
        p.detector_name n s.rules u) [
          | gave row created t' e settled ↦
              rw (flag-rules p s row created t' e)
                (record { row = row; is_there = settled.answers.0; fitting = settled.answers.1 })
        ]

  module _ {C : Type 0} (propose : C → Table → Option Proposal)
      (named : (c : C) (t : Table) → IsNamed (propose c t)) where
    first_flag :
        (c : C) (s : Store E)
        → Sane s
        → Ran Sane Keeps Anything s (flag orm conf run (propose c s.rules) s)
    first_flag c s sane =
        (flag-Runs orm laws conf run (propose c s.rules) (named c s.rules)).at s sane

    other_flags :
        (cs : List C) (s : Store E)
        → Sane s
        → Ran Sane Keeps Anything s (flag_each orm conf run propose cs s)
    other_flags cs s sane =
        (flag_each-Runs orm conf run Sane Keeps (Keeps-Lawful orm laws conf run) propose cs
            named).at
          s sane

    flag_each-cons :
        (c : C) (cs : List C) (s : Store E)
        → Sane s
        → (flag_each orm conf run propose (c ∷ cs) s).1
          ≡ (flag_each orm conf run propose cs (flag orm conf run (propose c s.rules) s).1).1
    unfolding flag_each_by
    flag_each-cons c cs s sane =
        let head = first_flag c s sane in rw (head.gives, (other_flags cs _ head.after).gives) refl

    -- What is proposed whatever the table holds is in it at the end.
    pub flag_each-Has :
        (cs : List C) (s : Store E) (c : C) (p : Proposal)
        → Sane s
        → In c cs
        → ((t : Table) → propose c t ≡ some p)
        → Has (lookup_of p) (flag_each orm conf run propose cs s).1.rules
    flag_each-Has [] s c p sane i e = absurd i
    flag_each-Has (x ∷ cs) s c p sane (inl same) e =
        let e' : propose x s.rules ≡ some p =
          subst (λ y. propose y s.rules ≡ some p) same (e s.rules) in
        rw (flag_each-cons x cs s sane) (
          Has-Kept (lookup_of p) _ _ (other_flags cs _ (first_flag x s sane).after).moved.rules
            (rw e' (flag-Has p s (subst IsNamed e' (named x s.rules)) sane.unique)))
    flag_each-Has (x ∷ cs) s c p sane (inr i) e =
        rw (flag_each-cons x cs s sane) (flag_each-Has cs _ c p (first_flag x s sane).after i e)
