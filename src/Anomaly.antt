-- ===== src/Anomaly.antt =====
-- models.py, enums.py and services/anomaly_detector.py: the rows that the anomaly detectors read
-- and write.
--
-- Of the models only the fields that the detectors read or write are there. An `expires_at` and a
-- timestamp are microseconds, a confidence is a number of hundredths, and an `id` stands for a UUID.
pub mod Confidence
pub mod Names
pub mod Store
pub mod Flags
pub mod Kept
pub mod Unique
pub mod Writes
pub mod Evidence
pub mod Detectors
pub mod SubnetBurst
pub mod Unsolved
pub mod CloudSpray
pub mod Scraper
pub mod RunAll
pub mod Loops
pub mod DryRun
pub mod Passes
pub mod Present
use django_waf.Base.{
  ℕ, suc, Bool, true, false, ◌&&◌, Option, none, some, List, [], ◌∷◌, Text, text, ◌=ᵗ◌, ◌==◌,
  get_or, keep_if,
}
use django_waf.Rules.{
  RuleType, ua, ip, cidr, composite, other_rule_type, MatchType, RuleAction, block, challenge,
  throttle, log_only, other_action, Verdict,
}

pub data RuleSource : Type 0 where
  admin auto feed : RuleSource

pub data ReviewStatus : Type 0 where
  not_applicable pending confirmed rejected expired_unreviewed : ReviewStatus

pub data AnomalyType : Type 0 where
  ua_rotation subnet_flood challenge_farm unsolved_challenge cloud_spray scraper_404 : AnomalyType

pub data RequestLogSource : Type 0 where
  middleware nginx_log : RequestLogSource

pub record RequestLog : Type 0 where
  pub timestamp : ℕ
  pub ip_address : Text
  pub user_agent : Text
  pub path : Text
  pub verdict : Verdict
  pub referer : Option Text
  pub response_code : ℕ
  pub source : RequestLogSource

pub record IpReputation : Type 0 where
  pub ip_address : Text
  pub last_seen_at : ℕ
  pub challenge_failures : ℕ
  pub challenge_passes : ℕ

-- A row of the challenge tokens whose status is SOLVED.
pub record SolvedToken : Type 0 where
  pub ip_address : Text
  pub solved_at : ℕ

pub record BlockRuleRow : Type 0 where
  pub id : ℕ
  pub created_at : ℕ
  pub name : Text
  pub rule_type : RuleType
  pub match_type : MatchType
  pub pattern : Text
  pub action : RuleAction
  pub is_active : Bool
  pub source : RuleSource
  pub expires_at : Option ℕ
  pub confidence : ℕ
  pub notes : Text
  pub review_status : ReviewStatus
  pub detectors : Text

abbrev pub Table : Type 0
Table = List BlockRuleRow

-- The keyword arguments by which a row is looked up.
pub record Lookup : Type 0 where
  pub rule_type : RuleType
  pub pattern : Text
  pub source : RuleSource
  pub action : RuleAction

-- The dictionary `defaults`; `none` is a key that is not in it.
pub record Defaults : Type 0 where
  pub name : Text
  pub match_type : MatchType
  pub is_active : Option Bool
  pub review_status : Option ReviewStatus
  pub expires_at : ℕ
  pub confidence : Option ℕ
  pub notes : Option Text
  pub detectors : Text

abbrev type_number : RuleType → ℕ
type_number ua = 0
type_number ip = 1
type_number cidr = 2
type_number composite = 3
type_number other_rule_type = 4

abbrev action_number : RuleAction → ℕ
action_number block = 0
action_number challenge = 1
action_number throttle = 2
action_number log_only = 3
action_number other_action = 4

abbrev source_number : RuleSource → ℕ
source_number admin = 0
source_number auto = 1
source_number feed = 2

agrees : ℕ → Text → ℕ → ℕ → BlockRuleRow → Bool
agrees rule_type pattern source action row =
    (rule_type == type_number row.rule_type && pattern =ᵗ row.pattern)
    && (source == source_number row.source && action == action_number row.action)

-- Whether `filter(**lookup)` finds the row.
unfoldable pub fits : Lookup → BlockRuleRow → Bool
unfolding agrees
fits k row =
    agrees (type_number k.rule_type) k.pattern (source_number k.source) (action_number k.action) row

abbrev pub matching : Lookup → Table → Table
matching k t = keep_if (fits k) t

-- `setattr` for each key of `defaults`
abbrev pub set_fields : Defaults → BlockRuleRow → BlockRuleRow
set_fields d r = record r {
  name = d.name;
  match_type = d.match_type;
  is_active = get_or d.is_active r.is_active;
  review_status = get_or d.review_status r.review_status;
  expires_at = some d.expires_at;
  confidence = get_or d.confidence r.confidence;
  notes = get_or d.notes r.notes;
  detectors = d.detectors;
}

-- `BlockRule(**lookup, **defaults)`, with the model's own defaults for other fields.
abbrev pub new_row : ℕ → ℕ → Lookup → Defaults → BlockRuleRow
new_row id created_at k d = set_fields d (record {
  id = id;
  created_at = created_at;
  name = d.name;
  rule_type = k.rule_type;
  match_type = d.match_type;
  pattern = k.pattern;
  action = k.action;
  is_active = true;
  source = k.source;
  expires_at = none;
  confidence = 100;
  notes = [];
  review_status = not_applicable;
  detectors = [];
})
