-- ===== src/Client/Address.antt =====
-- services/client_ip.py: the address of a client behind trusted proxies.
--
-- `p` holds what the module takes from ipaddress and from `str`. The two headers are texts, "" where
-- a header is absent.
pub mod Laws
use django_waf.Base.{
  ℕ, Bool, true, false, not, ◌&&◌, ◌||◌, Option, none, some, List, [], ◌∷◌, Text, ◌==◌,
  if◌then◌else◌, is_empty, any, map, reverse, is_some,
}
use django_waf.Rules.{Platform}

pub record ProxyConf : Type 0 where
  pub trusted_proxies : List Text
  pub trusted_unix_socket : Bool
  pub trust_x_forwarded_for : Bool

-- `s.split(",")`, the first part and the others
abbrev split_commas : Text → Text × List Text
split_commas [] = ([], [])
split_commas (c ∷ s) =
    let (part, parts) = split_commas s in
    if c == b',' then ([], part ∷ parts) else (c ∷ part, parts)

module _ (p : Platform) where
  -- An entry that is no network is passed over.
  covers : p.Address → Option p.Network → Bool
  covers address none = false
  covers address (some network) = p.in_network address network

  among : List Text → Option p.Address → Bool
  among trusted_proxies none = false
  among trusted_proxies (some address) =
      any (λ cidr. covers address (p.ip_network cidr)) trusted_proxies

  unfoldable pub is_trusted_proxy : Text → List Text → Bool
  unfolding covers among
  is_trusted_proxy ip_str trusted_proxies =
      if is_empty ip_str then false else among trusted_proxies (p.ip_address ip_str)

  abbrev pub is_valid_ip : Text → Bool
  is_valid_ip ip_str = is_some (p.ip_address ip_str)

  -- The loop passes over empty and malformed entries and over trusted proxies.
  abbrev pub is_hop : List Text → Text → Bool
  is_hop trusted_proxies hop =
      not (is_empty hop || not (is_valid_ip hop)) && not (is_trusted_proxy hop trusted_proxies)

  first_hop : List Text → List Text → Text
  first_hop trusted_proxies [] = []
  first_hop trusted_proxies (hop ∷ hops) =
      let rest = first_hop trusted_proxies hops in if is_hop trusted_proxies hop then hop else rest

  abbrev pub hops_of : Text → List Text
  hops_of forwarded_for =
      let (part, parts) = split_commas forwarded_for in map p.strip (part ∷ parts)

  unfoldable pub resolve_from_forwarded_chain : Text → List Text → Text
  unfolding first_hop
  resolve_from_forwarded_chain forwarded_for trusted_proxies =
      if is_empty forwarded_for
      then []
      else first_hop trusted_proxies (reverse (hops_of forwarded_for))

  abbrev pub is_trusted_peer : ProxyConf → Text → Bool
  is_trusted_peer conf remote_addr =
      is_trusted_proxy remote_addr conf.trusted_proxies
      || (conf.trusted_unix_socket && is_empty remote_addr)

  -- `forwarded_for.split(",")[0].strip()`
  abbrev leftmost : Text → Text
  leftmost forwarded_for = p.strip (split_commas forwarded_for).0

  or_peer : Text → Text → Text
  or_peer remote_addr resolved = if is_empty resolved then remote_addr else resolved

  unfoldable pub resolve_client_ip : ProxyConf → Text → Text → Text
  unfolding or_peer
  resolve_client_ip conf remote_addr forwarded_for =
      if is_trusted_peer conf remote_addr
      then or_peer remote_addr (resolve_from_forwarded_chain forwarded_for conf.trusted_proxies)
      else if conf.trust_x_forwarded_for
          && not (is_empty forwarded_for)
          && is_valid_ip (leftmost forwarded_for)
      then leftmost forwarded_for
      else remote_addr
