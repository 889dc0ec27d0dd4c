-- ===== src/Tasks/Sweep.antt =====
-- tasks.py: what `expire_rules` leaves.
use django_waf.Base.{
  ℕ, ◌+◌, Bool, true, false, ◌≡◌, refl, sym, Option, some, List, [], ◌∷◌, ltb, le→ltb_false, map,
  length, keep_if, All, inl, inr, Option-cases, arith,
}
use mathlib.Core.Path.{subst}
use django_waf.Redis.{Redis}
use django_waf.Rules.RuleCache.{version_key}
use django_waf.Anomaly.{BlockRuleRow, Table}
use django_waf.Tasks.{
  TaskStore, AllowRuleRow, Expired, expired_by, expired_at, allow_expired_at, unreviewed_at,
  deactivate, allow_deactivate, mark_unreviewed, is_pending, expire_rules, sweep, invalidate_if,
  invalidate_rule_cache_redis,
}

abbrev swept : ℕ → ℕ → BlockRuleRow → BlockRuleRow
swept now last row = mark_unreviewed last (deactivate now row)

-- What may become of a row.
pub record SweptRow (now last : ℕ) (row after : BlockRuleRow) : Type 0 where
  pub same_id : after.id ≡ row.id
  pub is_off : expired_by now row.expires_at ≡ true → after.is_active ≡ false
  pub not_waiting : unreviewed_at last after ≡ false
  pub still_on : expired_by now row.expires_at ≡ false → after.is_active ≡ row.is_active
  pub unexpired :
      expired_by now row.expires_at ≡ false → expired_by last row.expires_at ≡ false → after ≡ row
  pub review : is_pending row.review_status ≡ false → after.review_status ≡ row.review_status

swept-SweptRow : (now last : ℕ) (row : BlockRuleRow) → SweptRow now last row (swept now last row)
swept-SweptRow now last row = record {
  same_id = ground arith;
  is_off = λ h. ground arith;
  not_waiting = ground arith;
  still_on = λ h. ground arith;
  unexpired = λ h h'. ground arith;
  review = λ h. ground arith;
}

-- Row by row.
abbrev pub Aligned : {A : Type 0} → (A → A → Type 0) → List A → List A → Type 0
Aligned R [] [] = Unit {0}
Aligned R (x ∷ xs) (y ∷ ys) = R x y × Aligned R xs ys
Aligned R _ _ = ⊥

swept-Aligned :
    (now last : ℕ) (t : Table)
    → Aligned (SweptRow now last) t (map (mark_unreviewed last) (map (deactivate now) t))
swept-Aligned now last [] = tt
swept-Aligned now last (row ∷ t) = (swept-SweptRow now last row, swept-Aligned now last t)

allows_off :
    (now : ℕ) (rows : List AllowRuleRow)
    → All (λ row. allow_expired_at now row ≡ false) (map (allow_deactivate now) rows)
allows_off now [] = tt
allows_off now (row ∷ rows) = (ground arith, allows_off now rows)

module _ (r : Redis) where
  -- The invalidation raises nothing and leaves the rules.
  record LeavesRules (s : TaskStore r) (result : Option (Unit {0}) × TaskStore r) : Type 0 where
    gives : result.0 ≡ some tt
    same_blocks : result.1.block_rules ≡ s.block_rules
    same_allows : result.1.allow_rules ≡ s.allow_rules

  invalidate-LeavesRules : (s : TaskStore r) → LeavesRules s (invalidate_rule_cache_redis r s)
  unfolding invalidate_rule_cache_redis
  invalidate-LeavesRules s = elim (Option-cases (r.incr version_key s.server).0) [
    | inl e ↦ rw e (record { gives = refl; same_blocks = refl; same_allows = refl })
    | inr (version, e) ↦ rw e (record { gives = refl; same_blocks = refl; same_allows = refl })
  ]

  invalidate_if-LeavesRules : (b : Bool) (s : TaskStore r) → LeavesRules s (invalidate_if r b s)
  unfolding invalidate_if
  invalidate_if-LeavesRules true s =
      let h = invalidate-LeavesRules s in
      rw h.gives (record { gives = refl; same_blocks = h.same_blocks; same_allows = h.same_allows })
  invalidate_if-LeavesRules false s = record {
    gives = refl;
    same_blocks = refl;
    same_allows = refl;
  }

  invalidate_if-quiet :
      (b : Bool) (s : TaskStore r) → b ≡ false → (invalidate_if r b s).1.server ≡ s.server
  unfolding invalidate_if
  invalidate_if-quiet true s h = absurd (let no : ⊥ = cc in no)
  invalidate_if-quiet false s h = refl

  pub record Swept (now later last : ℕ) (s : TaskStore r) (result : Option Expired × TaskStore r)
      : Type 0 where
    pub counts : Expired
    pub returns : result.0 ≡ some counts
    pub blocks : Aligned (SweptRow now last) s.block_rules result.1.block_rules
    pub allows : All (λ row. allow_expired_at later row ≡ false) result.1.allow_rules
    pub quiet : counts.expired_count ≡ 0 → result.1.server ≡ s.server

  -- At any three readings of the clock the sweep returns whatever Redis does, and keeps every block
  -- rule in its place: one whose time has gone by at the first is off and any other is as active as
  -- before, no automatic one whose time has gone by at the last still waits for its review, one whose
  -- time has gone by at neither is as it was, and only a pending review changes. No allow rule is on
  -- after its time at the second. If no rule was switched off, Redis is left alone.
  pub expire_rules-Swept :
      (now later last : ℕ) (s : TaskStore r)
      → Swept now later last s (expire_rules r now later last s)
  unfolding expire_rules sweep
  expire_rules-Swept now later last s =
      let counts =
        length (keep_if (expired_at now) s.block_rules)
        + length (keep_if (allow_expired_at later) s.allow_rules) in
      let h = invalidate_if-LeavesRules (ltb 0 counts) (sweep r now later last s).1 in
      rw h.gives (record {
        counts = _;
        returns = refl;
        blocks =
            subst (Aligned (SweptRow now last) s.block_rules) (sym h.same_blocks)
              (swept-Aligned now last s.block_rules);
        allows =
            subst (All (λ row. allow_expired_at later row ≡ false)) (sym h.same_allows)
              (allows_off later s.allow_rules);
        quiet = λ none_expired.
            invalidate_if-quiet (ltb 0 counts) (sweep r now later last s).1
              (le→ltb_false 0 counts (omega (arith, none_expired)));
      })
