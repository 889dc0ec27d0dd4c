-- ===== src/Rules/Matching.antt =====
-- services/rule_engine.py: whether a rule matches a request.
--
-- The compiled patterns are memoised for the life of the process. The engine's other modules call
-- the plain functions; the memo is beside them, and `Memo` proves that it changes nothing.
pub mod Memo
use django_waf.Base.{
  ℕ, Bool, true, false, ◌&&◌, ◌||◌, Option, none, some, List, [], ◌∷◌, Text, leb, ◌==◌,
  if◌then◌else◌, ◌=ᵗ◌, has_substring,
}
use django_waf.Rules.{
  RuleType, ua, ip, cidr, composite, other_rule_type, MatchType, exact, regex, contains, cidr_match,
  other_match_type, Matcher, Platform,
}

-- `pattern.split("||", 1)`, and `none` where `"||" in pattern` is false.
split_bars : Text → Option (Text × Text)
split_bars [] = none
split_bars (c ∷ []) = none
split_bars (c ∷ d ∷ s) =
    let rest = split_bars (d ∷ s) in
    if c == b'|' && d == b'|'
    then some ([], s)
    else elim rest [ none ↦ none | some (a, b) ↦ some (c ∷ a, b) ]

unfoldable pub is_expired : Option ℕ → ℕ → Bool
is_expired none now = false
is_expired (some expires_at) now = leb expires_at now

module _ (p : Platform) where
  open p use {Regex}

  search_compiled : Option Regex → Text → Bool
  search_compiled none user_agent = false
  search_compiled (some compiled) user_agent = p.search compiled user_agent

  pub match_ua : Text → Text → MatchType → Bool
  match_ua user_agent pattern exact = user_agent =ᵗ pattern
  match_ua user_agent pattern contains = has_substring (p.lower pattern) (p.lower user_agent)
  match_ua user_agent pattern regex = search_compiled (p.compile pattern) user_agent
  match_ua user_agent pattern _ = false

  match_ip : Text → Text → MatchType → Bool
  match_ip address pattern exact = address =ᵗ pattern
  match_ip address pattern cidr_match = address =ᵗ pattern
  match_ip address pattern _ = false

  member_of : Option p.Address → Option p.Network → Bool
  member_of (some address) (some network) = p.in_network address network
  member_of (some address) none = false
  member_of none network = false

  match_cidr : Text → Text → Bool
  unfolding member_of
  match_cidr address pattern = member_of (p.ip_address address) (p.ip_network pattern)

  -- Both halves have to match; a pattern with no bars matches nothing.
  match_halves : Option (Text × Text) → Text → Text → MatchType → Bool
  match_halves none address user_agent match_type = false
  match_halves (some (ua_part, ip_part)) address user_agent match_type =
      match_ua user_agent (p.strip ua_part) match_type
      && (match_ip address (p.strip ip_part) match_type || match_cidr address (p.strip ip_part))

  match_typed : RuleType → MatchType → Text → Text → Text → Bool
  match_typed ua match_type pattern address user_agent = match_ua user_agent pattern match_type
  match_typed ip match_type pattern address user_agent = match_ip address pattern match_type
  match_typed cidr match_type pattern address user_agent = match_cidr address pattern
  match_typed composite match_type pattern address user_agent =
      match_halves (split_bars pattern) address user_agent match_type
  match_typed other_rule_type match_type pattern address user_agent = false

  unfoldable pub rule_matches : Matcher → Text → Text → Bool
  unfolding search_compiled match_ua match_ip match_cidr match_halves match_typed split_bars
  rule_matches rule address user_agent =
      match_typed rule.rule_type rule.match_type rule.pattern address user_agent

  -- `_ua_pattern_cache`, whose keys all have the match type "regex".
  abbrev pub PatternCache : Type 0
  PatternCache = List (Text × Option Regex)

  find_pattern : Text → PatternCache → Option (Option Regex)
  find_pattern pattern [] = none
  find_pattern pattern ((q, compiled) ∷ cache) =
      if q =ᵗ pattern then some compiled else find_pattern pattern cache

  remember : Text → Option (Option Regex) → PatternCache → Option Regex × PatternCache
  remember pattern (some compiled) cache = (compiled, cache)
  remember pattern none cache = (p.compile pattern, (pattern, p.compile pattern) ∷ cache)

  get_compiled_ua_regex : Text → PatternCache → Option Regex × PatternCache
  get_compiled_ua_regex pattern cache = remember pattern (find_pattern pattern cache) cache

  pub match_ua_memo : Text → Text → MatchType → PatternCache → Bool × PatternCache
  unfolding find_pattern remember get_compiled_ua_regex search_compiled
  match_ua_memo user_agent pattern regex cache =
      let (compiled, cache') = get_compiled_ua_regex pattern cache in
      (search_compiled compiled user_agent, cache')
  match_ua_memo user_agent pattern match_type cache =
      (match_ua user_agent pattern match_type, cache)
