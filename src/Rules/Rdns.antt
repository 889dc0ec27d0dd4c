-- ===== src/Rules/Rdns.antt =====
-- services/rule_engine.py: forward-confirmed reverse DNS, with its cached verdicts.
pub mod Laws
use django_waf.Base.{
  ℕ, Bool, true, false, not, Option, none, some, List, [], ◌∷◌, ◌++◌, Text, text, if◌then◌else◌,
  is_empty, ◌=ᵗ◌, any,
}
use django_waf.Exec.{Exec, pure, ◌>>=◌, ◌>>◌}
use django_waf.Redis.{Redis}
use django_waf.Rules.{Platform}

module _ (p : Platform) where
  -- `ipaddress.ip_address(candidate) == target`, a candidate that is no address being passed over
  is_target : p.Address → Option p.Address → Bool
  is_target target none = false
  is_target target (some candidate) = p.same_address candidate target

  confirm_address : Option p.Address → List Text → Bool
  confirm_address none forward_addresses = false
  confirm_address (some target) forward_addresses =
      any (λ candidate. is_target target (p.ip_address candidate)) forward_addresses

  confirm_forward : Text → Option (List Text) → Bool
  confirm_forward ip none = false
  confirm_forward ip (some forward_addresses) = confirm_address (p.ip_address ip) forward_addresses

  -- `re.search(rdns_pattern, hostname, re.IGNORECASE)`
  hostname_matches : Option p.Regex → Text → Bool
  hostname_matches none hostname = false
  hostname_matches (some compiled) hostname = p.search compiled hostname

  confirm_hostname : Text → Text → Option Text → Bool
  confirm_hostname ip rdns_pattern none = false
  confirm_hostname ip rdns_pattern (some hostname) =
      if is_empty hostname
      then false
      else if not (hostname_matches (p.compile rdns_pattern) hostname)
      then false
      else confirm_forward ip (p.forward_lookup hostname)

  unfoldable pub resolve_and_confirm_rdns : Text → Text → Bool
  unfolding is_target confirm_address confirm_forward hostname_matches confirm_hostname
  resolve_and_confirm_rdns ip rdns_pattern = confirm_hostname ip rdns_pattern (p.reverse_lookup ip)

  abbrev pub fcrdns_cache_key : Text → Text → Text
  fcrdns_cache_key ip rdns_pattern =
      text "waf:bot_fcrdns:" ++ ip ++ text ":" ++ p.short_hash rdns_pattern

  module _ (r : Redis) (failure_ttl : ℕ) where
    resolve_and_cache : Text → Text → Exec r.Server Bool
    resolve_and_cache ip rdns_pattern = do
      let verdict = resolve_and_confirm_rdns ip rdns_pattern
      r.setex (fcrdns_cache_key ip rdns_pattern) (if verdict then 86400 else failure_ttl)
          (if verdict then text "1" else text "0")
      pure verdict

    use_cached : Text → Text → Option Text → Exec r.Server Bool
    use_cached ip rdns_pattern none = resolve_and_cache ip rdns_pattern
    use_cached ip rdns_pattern (some cached_verdict) = pure (cached_verdict =ᵗ text "1")

    unfoldable pub verify_rdns : Text → Text → Exec r.Server Bool
    unfolding resolve_and_cache use_cached
    verify_rdns ip rdns_pattern =
        r.get (fcrdns_cache_key ip rdns_pattern) >>= use_cached ip rdns_pattern
