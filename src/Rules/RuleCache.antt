-- ===== src/Rules/RuleCache.antt =====
-- services/rule_engine.py: the rule set in the process, in Redis and in the database.
--
-- The process keeps one `RuleCache`, whose version is `_process_cache_version`. `decode` reads the
-- JSON text of the cached rules, and gives `none` for what the code catches; `encode` writes it.
-- `read_rules` is the query of the active rules, which may raise. The compiled patterns that a
-- `RuleCache` also holds are in `Rules.Matching`.
pub mod Laws
use django_waf.Base.{
  ℕ, zero, suc, Bool, true, false, Option, none, some, List, ◌++◌, Text, text, ◌==◌, if◌then◌else◌,
  is_empty,
}
use django_waf.Exec.{Exec, pure, raise, try_except, ◌>>=◌, ◌>>◌}
use django_waf.Redis.{Redis}
use django_waf.Rules.{BlockRule, AllowRule}

pub record Rules : Type 0 where
  pub allow_rules : List AllowRule
  pub block_rules : List BlockRule

pub record RuleCache : Type 0 where
  pub version : ℕ
  pub rules : Rules

pub record Engine (r : Redis) : Type 0 where
  pub server : r.Server
  pub process_cache : Option RuleCache

abbrev pub version_key : Text
version_key = text "waf:rules:version"

abbrev pub cache_key : (ℕ → Text) → ℕ → Text
cache_key show version = text "waf:rules:cache:" ++ show version

abbrev pub lock_key : Text
lock_key = text "waf:rule_cache:lock"

-- `int(raw_version) if raw_version else 0`
unfoldable pub read_version : (Text → Option ℕ) → Option Text → Option ℕ
read_version int none = some 0
read_version int (some raw) = if is_empty raw then some 0 else int raw

module _ (r : Redis) where
  abbrev pub redis : {A : Type 0} → Exec r.Server A → Exec (Engine r) A
  redis m e = let (a, server) = m e.server in (a, record e { server = server })

  -- The end of a round: the exception of `none` and the lock end the loop, a taken lock does not.
  continue_unless : Exec (Engine r) Bool → Option Bool → Exec (Engine r) Bool
  continue_unless again none = pure false
  continue_unless again (some true) = pure true
  continue_unless again (some false) = again

  -- The rounds that are left; the pause between two rounds is not modelled.
  acquire_rounds : ℕ → Exec (Engine r) Bool
  acquire_rounds zero = pure false
  acquire_rounds (suc rounds) =
      try_except (do acquired ← redis (r.set_nx lock_key (text "1") 5); pure (some acquired))
        (pure none)
      >>= continue_unless (acquire_rounds rounds)

  acquire_rebuild_lock : Exec (Engine r) Bool
  acquire_rebuild_lock = acquire_rounds 4

  release_rebuild_lock : Exec (Engine r) (Unit {0})
  release_rebuild_lock = try_except (redis (r.delete lock_key)) (pure tt)

  -- `try: m  finally: if lock_acquired: release`, where the release raises nothing
  finally_release : Bool → Exec (Engine r) RuleCache → Exec (Engine r) RuleCache
  finally_release lock_acquired m e =
      let (result, e') = m e in
      (result, (if lock_acquired then release_rebuild_lock e' else (some tt, e')).1)

  module _ (show : ℕ → Text) (encode : Rules → Text) (decode : Text → Option Rules)
      (read_rules : Option Rules) where
    store_rules : ℕ → Option Rules → Exec (Engine r) RuleCache
    store_rules version none = raise
    store_rules version (some rules) = do
      redis (r.setex (cache_key show version) 600 (encode rules))
      pure (record { version = version; rules = rules })

    rebuild_rule_cache : ℕ → Exec (Engine r) RuleCache
    rebuild_rule_cache version = do
      lock_acquired ← acquire_rebuild_lock
      finally_release lock_acquired (store_rules version read_rules)

    keep_in_process : RuleCache → Exec (Engine r) RuleCache
    keep_in_process cache e = (some cache, record e { process_cache = some cache })

    use_decoded : ℕ → Option Rules → Exec (Engine r) RuleCache
    use_decoded version none = rebuild_rule_cache version >>= keep_in_process
    use_decoded version (some rules) = keep_in_process (record { version = version; rules = rules })

    use_cached : ℕ → Option Text → Exec (Engine r) RuleCache
    use_cached version none = use_decoded version none
    use_cached version (some raw) =
        if is_empty raw then use_decoded version none else use_decoded version (decode raw)

    use_redis : ℕ → Exec (Engine r) RuleCache
    use_redis version = redis (r.get (cache_key show version)) >>= use_cached version

    use_process : ℕ → Option RuleCache → Exec (Engine r) RuleCache
    use_process version none = use_redis version
    use_process version (some cache) =
        if cache.version == version then pure cache else use_redis version

    at_version : Option ℕ → Exec (Engine r) RuleCache
    at_version none e = raise e
    at_version (some version) e = use_process version e.process_cache e

    unfoldable pub load_rule_cache : (Text → Option ℕ) → Exec (Engine r) RuleCache
    unfolding use_process use_redis use_cached use_decoded keep_in_process read_version at_version
        rebuild_rule_cache store_rules finally_release acquire_rebuild_lock acquire_rounds
        continue_unless release_rebuild_lock
    load_rule_cache int = redis (r.get version_key) >>= λ raw. at_version (read_version int raw)
