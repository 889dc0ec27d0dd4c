-- ===== src/Rules/RuleCache/Laws.antt =====
-- The version and the source of the rules that a request is judged by.
use django_waf.Base.{
  ℕ, ◌≡◌, ◌⊎◌, inl, inr, refl, sym, ap, ◌∙◌, Bool, Option, none, some, Text, ◌==◌, is_empty, arith,
  Bool-cases,
}
use django_waf.Exec.{continue}
use django_waf.Redis.{Redis}
use django_waf.Rules.RuleCache.{
  Rules, RuleCache, Engine, version_key, cache_key, finally_release, store_rules,
  rebuild_rule_cache, keep_in_process, use_decoded, use_cached, use_redis, use_process,
  read_version, at_version, load_rule_cache,
}

module _ (r : Redis) (show : ℕ → Text) (encode : Rules → Text) (decode : Text → Option Rules)
    (read_rules : Option Rules) where
  -- Where rules of a version come from, for a process that holds `before` and a server with the state
  -- `s`: from the process, from the text that Redis holds for that version, or from the database.
  abbrev pub ComesFrom : ℕ → Option RuleCache → r.Server → RuleCache → Type 0
  ComesFrom version before s cache =
      (before ≡ some cache)
      ⊎ ((raw : Text) × ((r.get (cache_key show version) s).0 ≡ some (some raw))
          × (decode raw ≡ some cache.rules))
      ⊎ (read_rules ≡ some cache.rules)

  abbrev Loads : ℕ → Option RuleCache → r.Server → Option RuleCache × Engine r → Type 0
  Loads version before s (result, after) =
      (cache : RuleCache)
      → result ≡ some cache
      → (cache.version ≡ version)
        × (after.process_cache ≡ some cache)
        × ComesFrom version before s cache

  store-Loads :
      (version : ℕ) (o : Option Rules) (e : Engine r) (cache : RuleCache)
      → (store_rules r show encode decode read_rules version o e).0 ≡ some cache
      → (cache.version ≡ version) × (o ≡ some cache.rules)
  unfolding store_rules
  store-Loads version none e cache h = cc
  store-Loads version (some rules) e cache h = ground arith

  finally-Loads :
      (version : ℕ) (o : Option Bool) (e : Engine r) (cache : RuleCache)
      → (continue o
          (λ lock_acquired.
            finally_release r lock_acquired
              (store_rules r show encode decode read_rules version read_rules))
          e).0
        ≡ some cache
      → (cache.version ≡ version) × (read_rules ≡ some cache.rules)
  unfolding finally_release
  finally-Loads version none e cache h = cc
  finally-Loads version (some lock_acquired) e cache h = store-Loads version read_rules e cache h

  rebuild-Loads :
      (version : ℕ) (e : Engine r) (cache : RuleCache)
      → (rebuild_rule_cache r show encode decode read_rules version e).0 ≡ some cache
      → (cache.version ≡ version) × (read_rules ≡ some cache.rules)
  unfolding rebuild_rule_cache
  rebuild-Loads version e cache h = finally-Loads version _ _ cache h

  kept-Loads :
      (version : ℕ) (before : Option RuleCache) (s : r.Server) (o : Option RuleCache) (e : Engine r)
      → ((cache : RuleCache)
          → o ≡ some cache
          → (cache.version ≡ version) × ComesFrom version before s cache)
      → Loads version before s (continue o (keep_in_process r show encode decode read_rules) e)
  unfolding keep_in_process
  kept-Loads version before s none e f cache h = cc
  kept-Loads version before s (some found) e f cache h =
      let same : found ≡ cache = cc in
      let (v, source) = f cache (ap some same) in (v, ap some same, source)

  decoded-Loads :
      (version : ℕ) (before : Option RuleCache) (s : r.Server) (o : Option Rules) (e : Engine r)
      → ((rules : Rules)
          → o ≡ some rules
          → (raw : Text) × ((r.get (cache_key show version) s).0 ≡ some (some raw))
            × (decode raw ≡ some rules))
      → Loads version before s (use_decoded r show encode decode read_rules version o e)
  unfolding use_decoded
  decoded-Loads version before s none e f =
      kept-Loads version before s _ _
        (λ cache h. let (v, source) = rebuild-Loads version e cache h in (v, inr (inr source)))
  decoded-Loads version before s (some rules) e f =
      kept-Loads version before s (some (record { version = version; rules = rules })) e (λ cache h.
        let same : record { version = version; rules = rules } ≡ cache = cc in
        let (raw, held, read_as) = f rules refl in
        (
          ap (λ c. c.version) (sym same),
          inr (inl (raw, held, read_as ∙ ap (λ c. some c.rules) same)),
        ))

  cached-Loads :
      (version : ℕ) (before : Option RuleCache) (s : r.Server) (o : Option Text) (e : Engine r)
      → (r.get (cache_key show version) s).0 ≡ some o
      → Loads version before s (use_cached r show encode decode read_rules version o e)
  unfolding use_cached
  cached-Loads version before s none e held = decoded-Loads version before s none e (λ rules h. cc)
  cached-Loads version before s (some raw) e held = elim (Bool-cases (is_empty raw)) [
    | inl b ↦ rw b (decoded-Loads version before s none e (λ rules h. cc))
    | inr b ↦ rw b (decoded-Loads version before s (decode raw) e (λ rules h. (raw, held, h)))
  ]

  answered-Loads :
      (version : ℕ) (before : Option RuleCache) (s : r.Server) (o : Option (Option Text))
      (e : Engine r)
      → (r.get (cache_key show version) s).0 ≡ o
      → Loads version before s (continue o (use_cached r show encode decode read_rules version) e)
  answered-Loads version before s none e held cache h = cc
  answered-Loads version before s (some raw) e held cache h =
      cached-Loads version before s raw e held cache h

  process-Loads :
      (version : ℕ) (o : Option RuleCache) (e : Engine r)
      → e.process_cache ≡ o
      → Loads version o e.server (use_process r show encode decode read_rules version o e)
  unfolding use_process use_redis
  process-Loads version none e same = answered-Loads version none e.server _ _ refl
  process-Loads version (some cache) e same = elim (Bool-cases (cache.version == version)) [
    | inl b ↦ rw b (λ found h.
        let eq : cache ≡ found = cc in ((ground arith), same ∙ ap some eq, inl (ap some eq)))
    | inr b ↦ rw b (answered-Loads version (some cache) e.server _ _ refl)
  ]

  at_version-Loads :
      (o : Option ℕ) (before : Option RuleCache) (e : Engine r) (version : ℕ)
      → o ≡ some version
      → e.process_cache ≡ before
      → Loads version before e.server (at_version r show encode decode read_rules o e)
  unfolding at_version
  at_version-Loads none before e version h same = cc
  at_version-Loads (some v) before e version h same =
      let eq : v ≡ version = cc in rw (← eq) (rw (← same) (process-Loads v e.process_cache e refl))

  answer-Loads :
      (int : Text → Option ℕ) (o : Option (Option Text)) (raw : Option Text) (e : Engine r)
      (version : ℕ)
      → o ≡ some raw
      → read_version int raw ≡ some version
      → Loads version e.process_cache e.server
          (continue o (λ raw. at_version r show encode decode read_rules (read_version int raw)) e)
  answer-Loads int none raw e version same reads = cc
  answer-Loads int (some found) raw e version same reads =
      let eq : found ≡ raw = cc in
      at_version-Loads (read_version int found) e.process_cache e version (rw eq reads) refl

  -- The rules that a request is judged by have the version that Redis has when the request reads it,
  -- and the process keeps them. They are the rules that the process had kept, those of the text that
  -- Redis, once the version is read, holds under the cache key of that version, or those of the
  -- database.
  pub load_rule_cache-Loads :
      (int : Text → Option ℕ) (e : Engine r) (raw : Option Text) (version : ℕ) (cache : RuleCache)
      → (r.get version_key e.server).0 ≡ some raw
      → read_version int raw ≡ some version
      → (load_rule_cache r show encode decode read_rules int e).0 ≡ some cache
      → (cache.version ≡ version)
        × ((load_rule_cache r show encode decode read_rules int e).1.process_cache ≡ some cache)
        × ComesFrom version e.process_cache (r.get version_key e.server).1 cache
  unfolding load_rule_cache
  load_rule_cache-Loads int e raw version cache answer reads h =
      answer-Loads int _ raw _ version answer reads cache h
