-- ===== src/Rules.antt =====
-- services/rule_engine.py and enums.py: the rules, what a request is judged to be, and what the
-- engine takes from Python's library and from the network.
--
-- Scores are the code's floats in tenths: the package's own scores and thresholds are multiples of
-- one half. An `expires_at` is a time in microseconds.
pub mod Matching
pub mod Rdns
pub mod RuleCache
pub mod Gate
pub mod Scan
pub mod Score
pub mod Patterns
pub mod Evaluate
use django_waf.Base.{ℕ, Bool, Option, none, List, Text, text}

pub data RuleType : Type 0 where
  ua ip cidr composite other_rule_type : RuleType

pub data MatchType : Type 0 where
  exact regex contains cidr_match other_match_type : MatchType

pub data RuleAction : Type 0 where
  block challenge throttle log_only other_action : RuleAction

pub data Verdict : Type 0 where
  allowed blocked challenged throttled passed logged : Verdict

-- The part of a rule that `_rule_matches` reads.
pub record Matcher : Type 0 where
  pub rule_type : RuleType
  pub match_type : MatchType
  pub pattern : Text

pub record BlockRule : Type 0 where
  pub id : Text
  pub matcher : Matcher
  pub action : RuleAction
  pub expires_at : Option ℕ

pub record AllowRule : Type 0 where
  pub id : Text
  pub matcher : Matcher
  pub verify_rdns : Bool
  pub rdns_pattern : Text
  pub expires_at : Option ℕ

pub record EvaluationResult : Type 0 where
  pub verdict : Verdict
  pub action : Option RuleAction
  pub matched_rule_id : Option Text
  pub matched_rule_type : Text
  pub anomaly_score : Option ℕ
  pub retry_after : Option ℕ
  pub window : Option Text

-- A result with no rule, no score and no window.
abbrev pub plain_result : Verdict → Option RuleAction → EvaluationResult
plain_result verdict action = record {
  verdict = verdict;
  action = action;
  matched_rule_id = none;
  matched_rule_type = text "";
  anomaly_score = none;
  retry_after = none;
  window = none;
}

-- `re`, `ipaddress`, `socket`, `uuid`, `hashlib` and the methods of `str` that the engine calls.
-- `none` is an exception of the call.
pub record Platform : Type 1 where
  pub Regex : Type 0
  pub Address : Type 0
  pub Network : Type 0
  pub lower : Text → Text
  pub upper : Text → Text
  pub strip : Text → Text
  -- `re.compile(pattern, re.IGNORECASE)` and its `search`
  pub compile : Text → Option Regex
  pub search : Regex → Text → Bool
  pub ip_address : Text → Option Address
  pub same_address : Address → Address → Bool
  -- `ip_network(…, strict=False)` and `in`
  pub ip_network : Text → Option Network
  pub in_network : Address → Network → Bool
  -- `gethostbyaddr(…)[0]`, and the addresses that `getaddrinfo` gives
  pub reverse_lookup : Text → Option Text
  pub forward_lookup : Text → Option (List Text)
  pub uuid : Text → Option Text
  pub int : Text → Option ℕ
  pub show : ℕ → Text
  -- the first twelve digits of SHA-1
  pub short_hash : Text → Text
