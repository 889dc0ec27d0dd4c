-- ===== src/Rules/Scan/Laws.antt =====
-- Which rule a scan finds.
use django_waf.Base.{
  ℕ, ◌*◌, ◌≡◌, inl, inr, refl, Bool, true, false, Option, none, some, List, [], ◌∷◌, Text,
  if◌then◌else◌, In, Bool-cases,
}
use mathlib.Core.Bool.{false≢true}
use mathlib.Core.Path.{subst, sym, ◌∙◌}
use django_waf.Exec.{continue, try_except-Total, ◌>>◌}
use django_waf.Redis.{Redis}
use django_waf.Rules.{BlockRule, AllowRule, Platform}
use django_waf.Rules.Rdns.{verify_rdns}
use django_waf.Rules.Scan.{
  hits_key, record_rule_hit, allow_candidate, block_candidate, wants_rdns, check_allow_rules,
  check_block_rules, accept_confirmed,
}

module _ {A : Type 0} (p : A → Bool) where
  -- The first element that passes the test.
  abbrev pub first_passing : List A → Option A
  first_passing [] = none
  first_passing (a ∷ others) = if p a then some a else first_passing others

record_rule_hit-Total :
    (r : Redis) (id : Text) (s : r.Server) → (record_rule_hit r id s).0 ≡ some tt
unfolding record_rule_hit
record_rule_hit-Total r id s =
    let (t, e) =
      try_except-Total (r.incr (hits_key id) >> r.expire (hits_key id) (86400 * 2)) tt s in
    e

module _ (p : Platform) (r : Redis) (now : ℕ) (ip user_agent : Text) where
  hit_found :
      (rule : BlockRule) (s : r.Server)
      → ((record_rule_hit r rule.id >> λ t. (some (some rule), t)) s).0 ≡ some (some rule)
  hit_found rule s = rw (record_rule_hit-Total r rule.id s)

  -- The scan of the block rules finds the first rule that has not expired and matches, and none if
  -- there is no such rule; it does so with Redis down too.
  pub check_block_rules_lem :
      (rules : List BlockRule) (s : r.Server)
      → (check_block_rules p r now ip user_agent rules s).0
        ≡ some (first_passing (block_candidate p r now ip user_agent) rules)
  unfolding check_block_rules
  check_block_rules_lem [] s = refl
  check_block_rules_lem (rule ∷ rules) s =
      elim (Bool-cases (block_candidate p r now ip user_agent rule)) [
        | inl e ↦ rw e (hit_found rule s)
        | inr e ↦ rw e (check_block_rules_lem rules s)
      ]

  -- The rule matched and had not expired, and a rule that asks for it had its host name confirmed.
  abbrev pub Allows : ℕ → AllowRule → Type 0
  Allows failure_ttl rule =
      (allow_candidate p r now ip user_agent rule ≡ true)
      × (wants_rdns p r now ip user_agent rule ≡ true
          → (t : r.Server) × ((verify_rdns p r failure_ttl ip rule.rdns_pattern t).0 ≡ some true))

  accepted_lem :
      (failure_ttl : ℕ) (rule found : AllowRule) (rules : List AllowRule) (o : Option Bool)
      (s t : r.Server)
      → (verify_rdns p r failure_ttl ip rule.rdns_pattern t).0 ≡ o
      → allow_candidate p r now ip user_agent rule ≡ true
      → ((u : r.Server)
          → (check_allow_rules p r now ip user_agent failure_ttl rules u).0 ≡ some (some found)
          → In found rules × Allows failure_ttl found)
      → (continue o
          (accept_confirmed p r now ip user_agent rule
            (check_allow_rules p r now ip user_agent failure_ttl rules))
          s).0
        ≡ some (some found)
      → In found (rule ∷ rules) × Allows failure_ttl found
  unfolding accept_confirmed
  accepted_lem failure_ttl rule found rules none s t e c ih h = cc
  accepted_lem failure_ttl rule found rules (some true) s t e c ih h =
      let same : rule ≡ found = cc in
      (inl (sym same), subst (Allows failure_ttl) same (c, λ _. (t, e)))
  accepted_lem failure_ttl rule found rules (some false) s t e c ih h =
      let (member, allows) = ih s h in (inr member, allows)

  -- A rule that the scan of the allow rules finds is one of them, has not expired and matches; and
  -- if it asks for a confirmed host name, the check of the address against the rule's pattern passed.
  pub check_allow_rules_sound :
      (failure_ttl : ℕ) (rules : List AllowRule) (found : AllowRule) (s : r.Server)
      → (check_allow_rules p r now ip user_agent failure_ttl rules s).0 ≡ some (some found)
      → In found rules × Allows failure_ttl found
  unfolding check_allow_rules
  check_allow_rules_sound failure_ttl [] found s h = cc
  check_allow_rules_sound failure_ttl (rule ∷ rules) found s h =
      elim (Bool-cases (allow_candidate p r now ip user_agent rule)) [
        | inr e ↦
            let (member, allows) = check_allow_rules_sound failure_ttl rules found s (rw e at h) in
            (inr member, allows)
        | inl e ↦ elim (Bool-cases (wants_rdns p r now ip user_agent rule)) [
          | inl w ↦
              accepted_lem failure_ttl rule found rules _ _ s refl e
                (λ u. check_allow_rules_sound failure_ttl rules found u) (rw (e, w) at h)
          | inr w ↦
              let same : rule ≡ found =
                let g : some (some rule) ≡ some (some found) = rw (e, w) at h in cc in
              (
                inl (sym same),
                subst (Allows failure_ttl) same (e, λ q. absurd (false≢true (sym w ∙ q))),
              )
        ]
      ]
