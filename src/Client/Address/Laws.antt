-- ===== src/Client/Address/Laws.antt =====
-- What a client can and cannot make of its address.
use mathlib.Core.List.{map-append, reverse-append}
use django_waf.Base.{
  ◌≡◌, ◌⊎◌, inl, inr, refl, sym, ap, ◌∙◌, true, false, List, [], ◌∷◌, ◌++◌, Text, ◌==◌, is_empty,
  reverse, Bool-cases,
}
use mathlib.Core.Bool.{false≢true}
use django_waf.Rules.{Platform}
use django_waf.Client.Address.{
  ProxyConf, split_commas, is_hop, first_hop, hops_of, resolve_from_forwarded_chain,
  is_trusted_peer, or_peer, resolve_client_ip,
}

-- What stands before a comma splits as it does alone, and what stands behind it follows.
split_commas-append :
    (a b : Text)
    → split_commas (a ++ b',' ∷ b)
      ≡ ((split_commas a).0, (split_commas a).1 ++ (split_commas b).0 ∷ (split_commas b).1)
split_commas-append [] b = refl
split_commas-append (c ∷ a) b = elim (Bool-cases (c == b',')) [
  | inl e ↦ rw (e, split_commas-append a b) refl
  | inr e ↦ rw (e, split_commas-append a b) refl
]

module _ (p : Platform) (trusted_proxies : List Text) where
  first_hop-append :
      (xs ys : List Text)
      → is_empty (first_hop p trusted_proxies xs) ≡ false
      → first_hop p trusted_proxies (xs ++ ys) ≡ first_hop p trusted_proxies xs
  unfolding first_hop
  first_hop-append [] ys h = absurd (false≢true (sym h))
  first_hop-append (hop ∷ xs) ys h = elim (Bool-cases (is_hop p trusted_proxies hop)) [
    | inl e ↦ rw e refl
    | inr e ↦ rw e (first_hop-append xs ys (rw e at h))
  ]

  first_hop-is_hop :
      (hops : List Text)
      → is_empty (first_hop p trusted_proxies hops) ≡ false
      → is_hop p trusted_proxies (first_hop p trusted_proxies hops) ≡ true
  unfolding first_hop
  first_hop-is_hop [] h = absurd (false≢true (sym h))
  first_hop-is_hop (hop ∷ hops) h = elim (Bool-cases (is_hop p trusted_proxies hop)) [
    | inl e ↦ rw e e
    | inr e ↦ rw e (first_hop-is_hop hops (rw e at h))
  ]

  hops_of-append : (a b : Text) → hops_of p (a ++ b',' ∷ b) ≡ hops_of p a ++ hops_of p b
  hops_of-append a b = rw (split_commas-append a b) (
      map-append p.strip ((split_commas a).0 ∷ (split_commas a).1)
        ((split_commas b).0 ∷ (split_commas b).1))

  hops-append :
      (a b : Text)
      → is_empty (first_hop p trusted_proxies (reverse (hops_of p b))) ≡ false
      → first_hop p trusted_proxies (reverse (hops_of p (a ++ b',' ∷ b)))
        ≡ first_hop p trusted_proxies (reverse (hops_of p b))
  hops-append a b h =
      ap (λ hops. first_hop p trusted_proxies (reverse hops)) (hops_of-append a b)
      ∙ ap (first_hop p trusted_proxies) (reverse-append (hops_of p a) (hops_of p b))
      ∙ first_hop-append (reverse (hops_of p b)) (reverse (hops_of p a)) h

  -- What a nearer proxy has appended decides, if it holds a hop at all.
  chain-append :
      (a b : Text)
      → is_empty (resolve_from_forwarded_chain p b trusted_proxies) ≡ false
      → resolve_from_forwarded_chain p (a ++ b',' ∷ b) trusted_proxies
        ≡ resolve_from_forwarded_chain p b trusted_proxies
  unfolding resolve_from_forwarded_chain
  chain-append a [] h = absurd (false≢true (sym h))
  chain-append [] (c ∷ b) h = hops-append [] (c ∷ b) h
  chain-append (d ∷ a) (c ∷ b) h = hops-append (d ∷ a) (c ∷ b) h

  chain-is_hop :
      (forwarded_for : Text)
      → is_empty (resolve_from_forwarded_chain p forwarded_for trusted_proxies) ≡ false
      → is_hop p trusted_proxies (resolve_from_forwarded_chain p forwarded_for trusted_proxies)
        ≡ true
  unfolding resolve_from_forwarded_chain
  chain-is_hop [] h = absurd (false≢true (sym h))
  chain-is_hop (c ∷ s) h = first_hop-is_hop (reverse (hops_of p (c ∷ s))) h

module _ (p : Platform) (conf : ProxyConf) (remote_addr : Text) where
  -- Behind a trusted proxy the address is decided by what the trusted proxies have appended to the
  -- header: whatever a client has put before it, the address is the same, if what was appended
  -- holds a valid address of no trusted proxy.
  pub resolve_client_ip-unspoofable :
      (spoofed appended : Text)
      → is_trusted_peer p conf remote_addr ≡ true
      → is_empty (resolve_from_forwarded_chain p appended conf.trusted_proxies) ≡ false
      → resolve_client_ip p conf remote_addr (spoofed ++ b',' ∷ appended)
        ≡ resolve_client_ip p conf remote_addr appended
  unfolding resolve_client_ip
  resolve_client_ip-unspoofable spoofed appended trusted h =
      rw trusted
        (ap (or_peer p remote_addr) (chain-append p conf.trusted_proxies spoofed appended h))

  -- Without the legacy setting the address is the direct peer's, or it is a valid address of no
  -- trusted proxy and the direct peer is trusted; so an untrusted peer cannot change its address.
  pub resolve_client_ip-IsTrusted :
      (forwarded_for : Text)
      → conf.trust_x_forwarded_for ≡ false
      → (resolve_client_ip p conf remote_addr forwarded_for ≡ remote_addr)
        ⊎ ((is_trusted_peer p conf remote_addr ≡ true)
            × (is_hop p conf.trusted_proxies (resolve_client_ip p conf remote_addr forwarded_for)
                ≡ true))
  unfolding resolve_client_ip
  resolve_client_ip-IsTrusted forwarded_for legacy =
      elim (Bool-cases (is_trusted_peer p conf remote_addr)) [
        | inr e ↦ inl (rw (e, legacy) refl)
        | inl e ↦
            elim (Bool-cases
              (is_empty (resolve_from_forwarded_chain p forwarded_for conf.trusted_proxies))) [
                | inl none_left ↦ inl (rw (e, none_left) refl)
                | inr found ↦
                    inr (e, rw (e, found) (chain-is_hop p conf.trusted_proxies forwarded_for found))
              ]
      ]
