-- ===== src/Anomaly/Flags.antt =====
-- services/anomaly_detector.py: `_get_or_create_auto_rule` over the store, and the end of the loop
-- that every detector has: a rule for what was found, and a signal if the rule is new.
--
-- A row that is not saved has 0 for its id and its time of creation.
use django_waf.Base.{
  Bool, true, false, Option, none, some, List, [], ◌∷◌, ◌++◌, Text, if◌then◌else◌,
}
use django_waf.Exec.{Exec, pure, ◌>>=◌, ◌>>◌}
use django_waf.Anomaly.{BlockRuleRow, Table, AnomalyType, Lookup, Defaults, matching, new_row}
use django_waf.Anomaly.Names.{merge_detector_names}
use django_waf.Anomaly.Store.{
  Written, wrote, multiple_objects, Orm, first, update_or_create_auto_rule, deduplicate_block_rules,
  AnomalyConf, Proposal, Run, Store, lookup_of, defaults_of,
}

module _ (orm : Orm) where
  -- Duplicates are deleted, and the write is tried again.
  unfoldable pub retry_without_duplicates :
      Lookup → Defaults → Text → Written × Table → Written × Table
  retry_without_duplicates k d detector_name (multiple_objects, t) =
      update_or_create_auto_rule orm k d detector_name (deduplicate_block_rules k t)
  retry_without_duplicates k d detector_name (w, t) = (w, t)

  unfoldable pub write_auto_rule : Lookup → Defaults → Text → Table → Written × Table
  unfolding retry_without_duplicates
  write_auto_rule k d detector_name t =
      retry_without_duplicates k d detector_name
        (update_or_create_auto_rule orm k d detector_name t)

-- What a dry run answers: it reads, and writes nothing.
abbrev pub foreseen : Option BlockRuleRow → Lookup → Defaults → Text → Bool → BlockRuleRow × Bool
foreseen (some existing) k d detector_name count_refresh = (existing, count_refresh)
foreseen none k d detector_name count_refresh =
    (new_row 0 0 k (record d { detectors = merge_detector_names [] detector_name }), true)

module _ {E : Type 0} where
  abbrev pub give : Written × Table → Exec (Store E) (BlockRuleRow × Bool)
  give (wrote row created, t) s = (some (row, created), record s { rules = t })
  give (w, t) s = (none, record s { rules = t })

  -- The receivers' exceptions are caught.
  abbrev pub emit_anomaly_signal : AnomalyType → BlockRuleRow → Exec (Store E) (Unit {0})
  emit_anomaly_signal anomaly_type row s =
      (some tt, record s { signals = (anomaly_type, row) ∷ s.signals })

module _ {E : Type 0} (orm : Orm) (conf : AnomalyConf) (run : Run) where
  unfoldable pub foresee : Proposal → Exec (Store E) (BlockRuleRow × Bool)
  foresee p s =
      pure
        (foreseen (first (matching (lookup_of p) s.rules)) (lookup_of p) (defaults_of conf run p)
          p.detector_name run.count_refresh_as_created)
        s

  unfoldable pub write : Proposal → Exec (Store E) (BlockRuleRow × Bool)
  write p s =
      give (write_auto_rule orm (lookup_of p) (defaults_of conf run p) p.detector_name s.rules) s

  unfoldable pub get_or_create_auto_rule : Proposal → Exec (Store E) (BlockRuleRow × Bool)
  unfolding foresee write
  get_or_create_auto_rule p = if run.dry_run then foresee p else write p

  unfoldable pub report : Proposal → BlockRuleRow × Bool → Exec (Store E) (List BlockRuleRow)
  report p (row, false) = pure []
  report p (row, true) =
      if run.dry_run
      then pure (row ∷ [])
      else emit_anomaly_signal p.anomaly_type row >> pure (row ∷ [])

  unfoldable pub flag : Option Proposal → Exec (Store E) (List BlockRuleRow)
  unfolding report
  flag none = pure []
  flag (some p) = get_or_create_auto_rule p >>= report p

  -- The loop: `propose` is what comes before the rule, and `none` where the source continues.
  unfoldable pub flag_each_by :
      {C : Type 0}
      → (C → Exec (Store E) (Option Proposal))
      → List C
      → Exec (Store E) (List BlockRuleRow)
  unfolding flag
  flag_each_by propose [] = pure []
  flag_each_by propose (c ∷ cs) =
      let rest = flag_each_by propose cs in
      propose c >>= flag >>= λ found. rest >>= λ others. pure (found ++ others)

  -- The loop of a detector that reads at most the rules.
  abbrev pub flag_each :
      {C : Type 0} → (C → Table → Option Proposal) → List C → Exec (Store E) (List BlockRuleRow)
  flag_each propose = flag_each_by (λ c s. (some (propose c s.rules), s))
