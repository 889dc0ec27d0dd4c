-- ===== src/Anomaly/Loops.antt =====
-- services/anomaly_detector.py: what the loop of a detector does, from what one rule does.
use django_waf.Base.{Bool, true, false, refl, Option, none, some, List, [], ◌∷◌, ◌++◌, NoChar}
use django_waf.Exec.{Exec, ◌>>=◌}
use django_waf.Exec.Runs.{Runs, Preorder, Runs-pure, Runs-bind, Runs-if, Anything, trivial}
use django_waf.Anomaly.{BlockRuleRow, Table}
use django_waf.Anomaly.Store.{
  Orm, OrmLaws, AnomalyConf, Proposal, Run, Store, lookup_of, defaults_of,
}
use django_waf.Anomaly.Flags.{
  flag, flag_each_by, flag_each, foresee, write, report, get_or_create_auto_rule,
}
use django_waf.Anomaly.Kept.{Kept, Kept-refl, Kept-trans}
use django_waf.Anomaly.Unique.{Unique}
use django_waf.Anomaly.Writes.{gave, write_auto_rule-Wrote}

-- A rule that is proposed has a detector's name with no comma.
abbrev pub IsNamed : Option Proposal → Type 0
IsNamed none = Unit {0}
IsNamed (some p) = NoChar b',' p.detector_name

-- What one rule does to the store, and that other services are no concern.
pub record Lawful {E : Type 0} (orm : Orm) (conf : AnomalyConf) (run : Run) (P : Store E → Type 0)
    (R : Store E → Store E → Type 0) : Type 0 where
  pub order : Preorder R
  pub flags : (p : Option Proposal) → IsNamed p → Runs P R Anything (flag {E = E} orm conf run p)
  pub services : (s : Store E) (e : E) → P s → P (record s { services = e })
  pub services_moved : (s : Store E) (e : E) → R s (record s { services = e })

module _ {E : Type 0} (orm : Orm) (conf : AnomalyConf) (run : Run) (P : Store E → Type 0)
    (R : Store E → Store E → Type 0) (l : Lawful orm conf run P R) where
  pub flag_each_by-Runs :
      {C : Type 0} (propose : C → Exec (Store E) (Option Proposal)) (cs : List C)
      → ((c : C) → Runs P R IsNamed (propose c))
      → Runs P R Anything (flag_each_by orm conf run propose cs)
  unfolding flag_each_by
  flag_each_by-Runs propose [] h = Runs-pure P R l.order Anything [] trivial
  flag_each_by-Runs propose (c ∷ cs) h =
      Runs-bind P R l.order Anything Anything (propose c >>= flag orm conf run) _
        (Runs-bind P R l.order IsNamed Anything (propose c) (flag orm conf run) (h c) l.flags)
        (λ found _.
          Runs-bind P R l.order Anything Anything (flag_each_by orm conf run propose cs) _
            (flag_each_by-Runs propose cs h)
            (λ others _. Runs-pure P R l.order Anything (found ++ others) trivial))

  pub flag_each-Runs :
      {C : Type 0} (propose : C → Table → Option Proposal) (cs : List C)
      → ((c : C) (t : Table) → IsNamed (propose c t))
      → Runs P R Anything (flag_each orm conf run propose cs)
  flag_each-Runs propose cs h = flag_each_by-Runs _ cs (λ c. record {
    at = λ s p. record {
      value = propose c s.rules;
      gives = refl;
      holds = h c s.rules;
      after = p;
      moved = l.order.reflexive s;
    };
  })

-- Rules whose automatic ones have different keys.
pub record Sane {E : Type 0} (s : Store E) : Type 0 where
  pub unique : Unique s.rules

pub record Keeps {E : Type 0} (s s' : Store E) : Type 0 where
  pub rules : Kept s.rules s'.rules

pub Keeps-Preorder : {E : Type 0} → Preorder (Keeps {E = E})
Keeps-Preorder = record {
  reflexive = λ s. record { rules = Kept-refl s.rules };
  transitive = λ s t u f g. record { rules = Kept-trans s.rules t.rules u.rules f.rules g.rules };
}

module _ {E : Type 0} (orm : Orm) (laws : OrmLaws orm) (conf : AnomalyConf) (run : Run) where
  pub get_or_create-Runs :
      (p : Proposal)
      → NoChar b',' p.detector_name
      → Runs {S = Store E} Sane Keeps Anything (get_or_create_auto_rule orm conf run p)
  unfolding get_or_create_auto_rule foresee write
  get_or_create-Runs p n =
      Runs-if Sane Keeps Anything run.dry_run (foresee orm conf run p) (write orm conf run p)
        (λ _. record {
          at = λ s sane. record {
            value = _;
            gives = refl;
            holds = trivial;
            after = sane;
            moved = Keeps-Preorder.reflexive s;
          };
        })
        (λ _. record {
          at = λ s sane.
              elim (write_auto_rule-Wrote orm laws (lookup_of p) refl (defaults_of conf run p)
                p.detector_name n s.rules sane.unique) [
                  | gave row created t' e settled ↦ record {
                    value = (row, created);
                    gives = rw e refl;
                    holds = trivial;
                    after = rw e (record { unique = settled.unique });
                    moved = rw e (record { rules = settled.kept });
                  }
                ];
        })

  report-Runs :
      (p : Proposal) (found : BlockRuleRow × Bool)
      → Runs {S = Store E} Sane Keeps Anything (report orm conf run p found)
  unfolding report
  report-Runs p (row, false) = Runs-pure Sane Keeps Keeps-Preorder Anything [] trivial
  report-Runs p (row, true) =
      Runs-if Sane Keeps Anything run.dry_run _ _
        (λ _. Runs-pure Sane Keeps Keeps-Preorder Anything (row ∷ []) trivial)
        (λ _. record {
          at = λ s sane. record {
            value = row ∷ [];
            gives = refl;
            holds = trivial;
            after = record { unique = sane.unique };
            moved = record { rules = Kept-refl s.rules };
          };
        })

  pub flag-Runs :
      (p : Option Proposal)
      → IsNamed p
      → Runs {S = Store E} Sane Keeps Anything (flag orm conf run p)
  unfolding flag
  flag-Runs none n = Runs-pure Sane Keeps Keeps-Preorder Anything [] trivial
  flag-Runs (some p) n =
      Runs-bind Sane Keeps Keeps-Preorder Anything Anything (get_or_create_auto_rule orm conf run p)
        (report orm conf run p) (get_or_create-Runs p n) (λ found _. report-Runs p found)

  -- Every rule that is flagged keeps what is in the table.
  pub Keeps-Lawful : Lawful {E = E} orm conf run Sane Keeps
  Keeps-Lawful = record {
    order = Keeps-Preorder;
    flags = flag-Runs;
    services = λ s e sane. record { unique = sane.unique };
    services_moved = λ s e. record { rules = Kept-refl s.rules };
  }
