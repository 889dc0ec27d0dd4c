-- ===== src/Anomaly/Store.antt =====
-- services/anomaly_detector.py: `_get_or_create_auto_rule` with `_update_or_create_auto_rule`,
-- `_auto_rule_write_defaults`, `_deduplicate_block_rules` and `_emit_anomaly_signal`.
--
-- Django's `update_or_create` is a field of `Orm`, with what its documentation says as `OrmLaws`.
-- `E` is the state of whatever else a detector talks to.
use django_waf.Base.{
  ℕ, ◌≤◌, Bool, true, false, not, ◌&&◌, ◌||◌, ◌≡◌, Option, none, some, List, [], ◌∷◌, ◌++◌, Text,
  ◌=ᵗ◌, ltb, ◌==◌, if◌then◌else◌, keep_if, any, length,
}
use django_waf.Rules.{RuleType, MatchType, RuleAction}
use django_waf.Anomaly.{
  auto, ReviewStatus, not_applicable, pending, confirmed, rejected, AnomalyType, BlockRuleRow,
  Table, Lookup, Defaults, fits, matching, set_fields, new_row,
}
use django_waf.Anomaly.Names.{merge_detector_names}

-- What a write came to: a row and whether it is new, or an exception.
pub data Written : Type 0 where
  wrote : BlockRuleRow → Bool → Written
  integrity_error multiple_objects does_not_exist : Written

pub record Orm : Type 0 where
  pub update_or_create : Lookup → Defaults → Table → Written × Table

-- What a call with the answer `w` did: it found no row and inserted one, found one row and updated
-- it, found several and wrote nothing, or found none and lost the race against another insert.
pub data Documented (k : Lookup) (d : Defaults) (t : Table) (w : Written) (t' : Table)
    : Type 0 where
  inserted :
      (id created_at : ℕ)
      → matching k t ≡ []
      → w ≡ wrote (new_row id created_at k d) true
      → t' ≡ t ++ new_row id created_at k d ∷ []
      → Documented k d t w t'
  updated :
      (earlier later : Table) (row : BlockRuleRow)
      → t ≡ earlier ++ row ∷ later
      → matching k t ≡ row ∷ []
      → w ≡ wrote (set_fields d row) false
      → t' ≡ earlier ++ set_fields d row ∷ later
      → Documented k d t w t'
  found_several : 2 ≤ length (matching k t) → w ≡ multiple_objects → t' ≡ t → Documented k d t w t'
  lost_race :
      (other : BlockRuleRow)
      → matching k t ≡ []
      → fits k other ≡ true
      → w ≡ integrity_error
      → t' ≡ t ++ other ∷ []
      → Documented k d t w t'

pub record OrmLaws (orm : Orm) : Type 0 where
  pub documented :
      (k : Lookup) (d : Defaults) (t : Table)
      → Documented k d t (orm.update_or_create k d t).0 (orm.update_or_create k d t).1

-- `.first()`
abbrev pub first : Table → Option BlockRuleRow
first [] = none
first (row ∷ rows) = some row

abbrev pub is_reviewed : ReviewStatus → Bool
is_reviewed confirmed = true
is_reviewed rejected = true
is_reviewed _ = false

-- The review of an operator stays: the keys that would undo it are taken out.
abbrev pub write_defaults : Option BlockRuleRow → Defaults → Text → Defaults
write_defaults none d detector_name = record d { detectors = merge_detector_names [] detector_name }
write_defaults (some existing) d detector_name =
    let merged = merge_detector_names existing.detectors detector_name in
    if is_reviewed existing.review_status
    then record d { detectors = merged; is_active = none; review_status = none }
    else record d { detectors = merged }

unfoldable pub auto_rule_write_defaults :
    Lookup → Defaults → Text → Table → Option BlockRuleRow × Defaults
auto_rule_write_defaults k d detector_name t =
    let existing = first (matching k t) in (existing, write_defaults existing d detector_name)

module _ (orm : Orm) where
  -- The winner of the race is updated, unless it is gone again.
  unfoldable pub merge_into_winner :
      Option BlockRuleRow × Defaults → Lookup → Table → Written × Table
  merge_into_winner (none, d) k t = (does_not_exist, t)
  merge_into_winner (some winner, d) k t = orm.update_or_create k d t

  unfoldable pub after_write : Written → Lookup → Defaults → Text → Table → Written × Table
  unfolding merge_into_winner
  after_write integrity_error k d detector_name t =
      merge_into_winner (auto_rule_write_defaults k d detector_name t) k t
  after_write w k d detector_name t = (w, t)

  unfoldable pub update_or_create_auto_rule : Lookup → Defaults → Text → Table → Written × Table
  unfolding after_write
  update_or_create_auto_rule k d detector_name t =
      let (w, t') = orm.update_or_create k (auto_rule_write_defaults k d detector_name t).1 t in
      after_write w k d detector_name t'

-- `order_by("-created_at").first()`
newest : BlockRuleRow → Table → BlockRuleRow
newest row [] = row
newest row (other ∷ rows) = newest (if ltb row.created_at other.created_at then other else row) rows

abbrev is_other : Lookup → BlockRuleRow → BlockRuleRow → Bool
is_other k keep row = fits k row && not (row.id == keep.id)

delete_others : Lookup → Table → Table → Table
unfolding newest
delete_others k [] t = t
delete_others k (row ∷ []) t = t
delete_others k (row ∷ rows) t = keep_if (λ r. not (is_other k (newest row rows) r)) t

unfoldable pub deduplicate_block_rules : Lookup → Table → Table
unfolding delete_others
deduplicate_block_rules k t = delete_others k (matching k t) t

pub record AnomalyConf : Type 0 where
  pub quarantine_auto_rules : Bool
  pub observe_only_detectors : List Text

-- The arguments of `_get_or_create_auto_rule` that differ between detectors, and the signal.
pub record Proposal : Type 0 where
  pub name : Text
  pub rule_type : RuleType
  pub match_type : MatchType
  pub pattern : Text
  pub action : RuleAction
  pub detector_name : Text
  pub confidence : ℕ
  pub notes : Text
  pub anomaly_type : AnomalyType

-- The arguments that a run passes on to every detector, and the expiry of the run's rules.
pub record Run : Type 0 where
  pub dry_run : Bool
  pub count_refresh_as_created : Bool
  pub expiry : ℕ

pub record Store (E : Type 0) : Type 0 where
  pub rules : Table
  pub signals : List (AnomalyType × BlockRuleRow)
  pub services : E

abbrev pub lookup_of : Proposal → Lookup
lookup_of p = record {
  rule_type = p.rule_type;
  pattern = p.pattern;
  source = auto;
  action = p.action;
}

abbrev pub is_active_on_create : AnomalyConf → Text → Bool
is_active_on_create conf detector_name =
    not (
      conf.quarantine_auto_rules || any (λ name. name =ᵗ detector_name) conf.observe_only_detectors)

abbrev pub defaults_of : AnomalyConf → Run → Proposal → Defaults
defaults_of conf run p =
    let is_active = is_active_on_create conf p.detector_name in
    record {
      name = p.name;
      match_type = p.match_type;
      is_active = some is_active;
      review_status = some (if is_active then not_applicable else pending);
      expires_at = run.expiry;
      confidence = some p.confidence;
      notes = some p.notes;
      detectors = [];
    }
