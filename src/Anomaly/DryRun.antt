-- ===== src/Anomaly/DryRun.antt =====
-- services/anomaly_detector.py: a dry run of a detector's loop.
use django_waf.Base.{Bool, true, false, ◌≡◌, refl, ◌∙◌, Option, none, some, [], ◌∷◌}
use django_waf.Exec.Runs.{Runs, Preorder, Runs-pure, Runs-bind, Runs-if, Anything, trivial}
use django_waf.Anomaly.{BlockRuleRow}
use django_waf.Anomaly.Store.{Orm, AnomalyConf, Proposal, Run, Store}
use django_waf.Anomaly.Flags.{flag, foresee, write, report, get_or_create_auto_rule}
use django_waf.Anomaly.Loops.{Lawful}

-- The rules and the signals as they were.
pub record Untouched {E : Type 0} (s s' : Store E) : Type 0 where
  pub rules : s'.rules ≡ s.rules
  pub signals : s'.signals ≡ s.signals

pub Untouched-Preorder : {E : Type 0} → Preorder (Untouched {E = E})
Untouched-Preorder = record {
  reflexive = λ s. record { rules = refl; signals = refl };
  transitive = λ s t u f g. record { rules = g.rules ∙ f.rules; signals = g.signals ∙ f.signals };
}

module _ {E : Type 0} (orm : Orm) (conf : AnomalyConf) (run : Run) (dry : run.dry_run ≡ true) where
  dry_get_or_create-Runs :
      (p : Proposal)
      → Runs {S = Store E} Anything Untouched Anything (get_or_create_auto_rule orm conf run p)
  unfolding get_or_create_auto_rule foresee
  dry_get_or_create-Runs p =
      Runs-if Anything Untouched Anything run.dry_run (foresee orm conf run p)
        (write orm conf run p)
        (λ _. record {
          at = λ s _. record {
            value = _;
            gives = refl;
            holds = trivial;
            after = trivial;
            moved = Untouched-Preorder.reflexive s;
          };
        })
        (λ wet. absurd (let no : ⊥ = cc in no))

  dry_report-Runs :
      (p : Proposal) (found : BlockRuleRow × Bool)
      → Runs {S = Store E} Anything Untouched Anything (report orm conf run p found)
  unfolding report
  dry_report-Runs p (row, false) =
      Runs-pure Anything Untouched Untouched-Preorder Anything [] trivial
  dry_report-Runs p (row, true) =
      Runs-if Anything Untouched Anything run.dry_run _ _
        (λ _. Runs-pure Anything Untouched Untouched-Preorder Anything (row ∷ []) trivial)
        (λ wet. absurd (let no : ⊥ = cc in no))

  dry_flag-Runs :
      (p : Option Proposal) → Runs {S = Store E} Anything Untouched Anything (flag orm conf run p)
  unfolding flag
  dry_flag-Runs none = Runs-pure Anything Untouched Untouched-Preorder Anything [] trivial
  dry_flag-Runs (some p) =
      Runs-bind Anything Untouched Untouched-Preorder Anything Anything
        (get_or_create_auto_rule orm conf run p) (report orm conf run p) (dry_get_or_create-Runs p)
        (λ found _. dry_report-Runs p found)

  -- A dry run touches nothing.
  pub Untouched-Lawful : Lawful {E = E} orm conf run Anything Untouched
  Untouched-Lawful = record {
    order = Untouched-Preorder;
    flags = λ p _. dry_flag-Runs p;
    services = λ s e _. trivial;
    services_moved = λ s e. record { rules = refl; signals = refl };
  }
