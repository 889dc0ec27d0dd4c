-- ===== src/Rules/Scan.antt =====
-- services/rule_engine.py: the scans of the allow rules and of the block rules, and the hit counter.
pub mod Laws
use django_waf.Base.{
  ℕ, ◌*◌, Bool, true, false, not, ◌&&◌, ◌||◌, Option, none, some, List, [], ◌∷◌, ◌++◌, Text, text,
  if◌then◌else◌, is_empty,
}
use django_waf.Exec.{Exec, pure, try_except, ◌>>=◌, ◌>>◌}
use django_waf.Redis.{Redis}
use django_waf.Rules.{BlockRule, AllowRule, Platform}
use django_waf.Rules.Matching.{is_expired, rule_matches}
use django_waf.Rules.Rdns.{verify_rdns}

abbrev pub hits_key : Text → Text
hits_key rule_id = text "waf:rule_hits:" ++ rule_id

module _ (r : Redis) where
  -- A failure of Redis is swallowed.
  unfoldable pub record_rule_hit : Text → Exec r.Server (Unit {0})
  record_rule_hit rule_id =
      try_except (do r.incr (hits_key rule_id); r.expire (hits_key rule_id) (86400 * 2)) (pure tt)

module _ (p : Platform) (r : Redis) (now : ℕ) (ip user_agent : Text) where
  abbrev pub allow_candidate : AllowRule → Bool
  allow_candidate rule =
      not (is_expired rule.expires_at now) && rule_matches p rule.matcher ip user_agent

  abbrev pub block_candidate : BlockRule → Bool
  block_candidate rule =
      not (is_expired rule.expires_at now) && rule_matches p rule.matcher ip user_agent

  -- The rule asks for a confirmed host name.
  abbrev pub wants_rdns : AllowRule → Bool
  wants_rdns rule = rule.verify_rdns && not (is_empty rule.rdns_pattern)

  -- A rule whose host name is not confirmed counts as no match.
  accept_confirmed :
      AllowRule → Exec r.Server (Option AllowRule) → Bool → Exec r.Server (Option AllowRule)
  accept_confirmed rule rest true = pure (some rule)
  accept_confirmed rule rest false = rest

  unfoldable pub check_allow_rules : ℕ → List AllowRule → Exec r.Server (Option AllowRule)
  unfolding accept_confirmed
  check_allow_rules failure_ttl [] = pure none
  check_allow_rules failure_ttl (rule ∷ rules) =
      let rest = check_allow_rules failure_ttl rules in
      if not (allow_candidate rule)
      then rest
      else if wants_rdns rule
      then verify_rdns p r failure_ttl ip rule.rdns_pattern >>= accept_confirmed rule rest
      else pure (some rule)

  unfoldable pub check_block_rules : List BlockRule → Exec r.Server (Option BlockRule)
  check_block_rules [] = pure none
  check_block_rules (rule ∷ rules) =
      let rest = check_block_rules rules in
      if not (block_candidate rule) then rest else record_rule_hit r rule.id >> pure (some rule)
