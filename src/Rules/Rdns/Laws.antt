-- ===== src/Rules/Rdns/Laws.antt =====
-- What the confirmation of a host name proves, and what the cache keeps of it.
use django_waf.Base.{
  ℕ, ◌≡◌, refl, Bool, true, Option, none, some, List, [], ◌∷◌, Text, text, if◌then◌else◌, any,
  arith, In, inl, inr, Bool-cases,
}
use mathlib.Core.Bool.{false≢true}
use django_waf.Redis.{Redis}
use django_waf.Redis.Strings.{StringLaws}
use django_waf.Rules.{Platform}
use django_waf.Rules.Rdns.{
  is_target, confirm_address, confirm_forward, hostname_matches, confirm_hostname,
  resolve_and_confirm_rdns, fcrdns_cache_key, verify_rdns,
}

pub any-eq_true :
    {A : Type 0} (p : A → Bool) (xs : List A) → any p xs ≡ true → (a : A) × In a xs × (p a ≡ true)
any-eq_true p [] h = cc
any-eq_true p (x ∷ xs) h = elim (Bool-cases (p x)) [
  | inl e ↦ (x, inl refl, e)
  | inr e ↦ let (a, i, q) = any-eq_true p xs (rw e at h) in (a, inr i, q)
]

module _ (p : Platform) (ip rdns_pattern : Text) where
  -- A host name of the address matches the pattern, and the name leads back to the address.
  pub record IsConfirmed : Type 0 where
    pub hostname : Text
    pub reverse : p.reverse_lookup ip ≡ some hostname
    pub regex : p.Regex
    pub compiled : p.compile rdns_pattern ≡ some regex
    pub matches : p.search regex hostname ≡ true
    pub addresses : List Text
    pub forward : p.forward_lookup hostname ≡ some addresses
    pub candidate : Text
    pub listed : In candidate addresses
    pub target : p.Address
    pub parsed : p.ip_address ip ≡ some target
    pub found : p.Address
    pub candidate_parsed : p.ip_address candidate ≡ some found
    pub same : p.same_address found target ≡ true

  parsed_lem :
      (target : p.Address) (o : Option p.Address)
      → is_target p target o ≡ true
      → (found : p.Address) × (o ≡ some found) × (p.same_address found target ≡ true)
  unfolding is_target
  parsed_lem target none h = cc
  parsed_lem target (some found) h = (found, refl, h)

  confirm_forward_lem :
      (o : Option (List Text)) (a : Option p.Address)
      → p.ip_address ip ≡ a
      → confirm_forward p ip o ≡ true
      → (addresses : List Text) × (candidate : Text) × (target : p.Address) × (o ≡ some addresses)
        × In candidate addresses
        × (p.ip_address ip ≡ some target)
        × (is_target p target (p.ip_address candidate) ≡ true)
  unfolding confirm_forward confirm_address
  confirm_forward_lem none a e h = cc
  confirm_forward_lem (some addresses) none e h = absurd (false≢true (rw e at h))
  confirm_forward_lem (some addresses) (some target) e h =
      let (candidate, listed, same) =
        any-eq_true (λ c. is_target p target (p.ip_address c)) addresses (rw e at h) in
      (addresses, candidate, target, refl, listed, e, same)

  compiled_lem :
      (o : Option p.Regex) (hostname : Text)
      → hostname_matches p o hostname ≡ true
      → (regex : p.Regex) × (o ≡ some regex) × (p.search regex hostname ≡ true)
  unfolding hostname_matches
  compiled_lem none hostname h = cc
  compiled_lem (some regex) hostname h = (regex, refl, h)

  confirm_hostname_lem :
      (o : Option Text)
      → p.reverse_lookup ip ≡ o
      → confirm_hostname p ip rdns_pattern o ≡ true
      → IsConfirmed
  unfolding confirm_hostname
  confirm_hostname_lem none e h = cc
  confirm_hostname_lem (some hostname) e h =
      let (regex, compiled, matches) =
        compiled_lem (p.compile rdns_pattern) hostname (ground arith) in
      let (addresses, candidate, target, forward, listed, parsed, at) =
        confirm_forward_lem (p.forward_lookup hostname) (p.ip_address ip) refl (ground arith) in
      let (found, candidate_parsed, same) = parsed_lem target (p.ip_address candidate) at in
      record {
        hostname = hostname;
        reverse = e;
        regex = regex;
        compiled = compiled;
        matches = matches;
        addresses = addresses;
        forward = forward;
        candidate = candidate;
        listed = listed;
        target = target;
        parsed = parsed;
        found = found;
        candidate_parsed = candidate_parsed;
        same = same;
      }

  -- The check passes only if the address has a host name that matches the pattern, and the name's
  -- own records hold the address: a reverse record alone is not enough.
  pub resolve-IsConfirmed : resolve_and_confirm_rdns p ip rdns_pattern ≡ true → IsConfirmed
  unfolding resolve_and_confirm_rdns
  resolve-IsConfirmed h = confirm_hostname_lem (p.reverse_lookup ip) refl h

  -- A verdict that is not cached is found by the two lookups and is cached for a day if it is good,
  -- and else for the configured time.
  pub verify_rdns-cached :
      (r : Redis) (laws : StringLaws r) (failure_ttl : ℕ) (s s' : r.Server)
      → r.get (fcrdns_cache_key p ip rdns_pattern) s ≡ (some none, s')
      → ((verify_rdns p r failure_ttl ip rdns_pattern s).0
          ≡ some (resolve_and_confirm_rdns p ip rdns_pattern))
        × (laws.cell
              (verify_rdns p r failure_ttl ip rdns_pattern s).1
              (fcrdns_cache_key p ip rdns_pattern)
            ≡ some (record {
              value = if resolve_and_confirm_rdns p ip rdns_pattern then text "1" else text "0";
              ttl = if resolve_and_confirm_rdns p ip rdns_pattern then 86400 else failure_ttl;
            }))
  unfolding verify_rdns
  verify_rdns-cached r laws failure_ttl s s' e =
      rw e (simp (laws.setex_answers, laws.cell-setex) (refl, refl))
