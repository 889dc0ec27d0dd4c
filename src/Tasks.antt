-- ===== src/Tasks.antt =====
-- tasks.py, models.py and services/anomaly_detector.py: what becomes of the rules with time, that is
-- `expire_rules`, `prune_stale_rules`, the querysets of the managers of rules, and
-- `auto_rule_review_outcomes`.
--
-- `expire_rules` reads the clock three times, once for each update, so it takes three times.
-- Of an allow rule only the fields that the sweep reads are there. `local_version` is the version in
-- Django's cache, which the process falls back to when Redis fails.
pub mod Sweep
use django_waf.Base.{
  ℕ, ◌+◌, ◌-◌, ◌*◌, Bool, true, false, not, ◌&&◌, ◌||◌, Option, none, some, List, [], ◌∷◌, leb, ltb,
  if◌then◌else◌, keep_if, map, length, get_or, text,
}
use django_waf.Exec.{Exec, pure, try_except, ◌>>=◌, ◌>>◌}
use django_waf.Redis.{Redis}
use django_waf.Rules.RuleCache.{version_key}
use django_waf.Anomaly.{
  RuleSource, admin, auto, feed, ReviewStatus, not_applicable, pending, confirmed, rejected,
  expired_unreviewed, BlockRuleRow, Table,
}

pub record AllowRuleRow : Type 0 where
  pub is_active : Bool
  pub expires_at : Option ℕ

pub record TaskStore (r : Redis) : Type 0 where
  pub block_rules : Table
  pub allow_rules : List AllowRuleRow
  pub server : r.Server
  pub local_version : Option ℕ

-- `expires_at__lte=now`, which a rule that never expires does not meet
abbrev pub expired_by : ℕ → Option ℕ → Bool
expired_by now none = false
expired_by now (some expires_at) = leb expires_at now

abbrev pub is_auto : RuleSource → Bool
is_auto auto = true
is_auto _ = false

abbrev pub is_pending : ReviewStatus → Bool
is_pending pending = true
is_pending _ = false

-- `BlockRuleManager.active()` without its order, and `expired()`
abbrev pub active_at : ℕ → BlockRuleRow → Bool
active_at now row = row.is_active && not (expired_by now row.expires_at)

abbrev pub expired_at : ℕ → BlockRuleRow → Bool
expired_at now row = row.is_active && expired_by now row.expires_at

abbrev pub allow_expired_at : ℕ → AllowRuleRow → Bool
allow_expired_at now row = row.is_active && expired_by now row.expires_at

-- An automatic rule whose time went by before anyone reviewed it.
abbrev pub unreviewed_at : ℕ → BlockRuleRow → Bool
unreviewed_at now row =
    is_auto row.source && (is_pending row.review_status && expired_by now row.expires_at)

abbrev pub deactivate : ℕ → BlockRuleRow → BlockRuleRow
deactivate now row = if expired_at now row then record row { is_active = false } else row

abbrev pub allow_deactivate : ℕ → AllowRuleRow → AllowRuleRow
allow_deactivate now row =
    if allow_expired_at now row then record row { is_active = false } else row

abbrev pub mark_unreviewed : ℕ → BlockRuleRow → BlockRuleRow
mark_unreviewed now row =
    if unreviewed_at now row then record row { review_status = expired_unreviewed } else row

pub record Expired : Type 0 where
  pub expired_block_count : ℕ
  pub expired_allow_count : ℕ
  pub expired_count : ℕ
  pub expired_unreviewed_count : ℕ

module _ (r : Redis) where
  abbrev bump_local : Exec (TaskStore r) (Unit {0})
  bump_local s = (some tt, record s { local_version = some (get_or s.local_version 0 + 1) })

  abbrev on_server : {A : Type 0} → Exec r.Server A → Exec (TaskStore r) A
  on_server m s = let (a, server) = m s.server in (a, record s { server = server })

  unfoldable pub invalidate_rule_cache_redis : Exec (TaskStore r) (Unit {0})
  invalidate_rule_cache_redis =
      try_except (on_server (r.incr version_key) >>= λ version. pure tt) bump_local

  -- The three updates, with the numbers of rows that they change.
  sweep : ℕ → ℕ → ℕ → Exec (TaskStore r) Expired
  sweep now later last s =
      let blocks = length (keep_if (expired_at now) s.block_rules) in
      let allows = length (keep_if (allow_expired_at later) s.allow_rules) in
      let off = map (deactivate now) s.block_rules in
      (
        some (record {
          expired_block_count = blocks;
          expired_allow_count = allows;
          expired_count = blocks + allows;
          expired_unreviewed_count = length (keep_if (unreviewed_at last) off);
        }),
        record s {
          block_rules = map (mark_unreviewed last) off;
          allow_rules = map (allow_deactivate later) s.allow_rules;
        },
      )

  invalidate_if : Bool → Exec (TaskStore r) (Unit {0})
  invalidate_if changed =
      if changed then try_except invalidate_rule_cache_redis (pure tt) else pure tt

  unfoldable pub expire_rules : ℕ → ℕ → ℕ → Exec (TaskStore r) Expired
  unfolding sweep invalidate_if
  expire_rules now later last =
      sweep now later last >>= λ counts. invalidate_if (ltb 0 counts.expired_count) >> pure counts

-- `BlockRuleManager.stale(days)`
abbrev pub old_by : ℕ → Option ℕ → Bool
old_by cutoff none = false
old_by cutoff (some expires_at) = ltb expires_at cutoff

abbrev pub was_never_decided : ReviewStatus → Bool
was_never_decided not_applicable = true
was_never_decided expired_unreviewed = true
was_never_decided _ = false

abbrev pub stale_at : ℕ → BlockRuleRow → Bool
stale_at cutoff row =
    (is_auto row.source && not row.is_active)
    && (old_by cutoff row.expires_at && was_never_decided row.review_status)

abbrev pub days : ℕ → ℕ
days n = n * 86_400_000_000

-- The number of rows that are deleted, and whether it was a report only.
unfoldable pub prune_stale_rules : Bool → ℕ → Option ℕ → ℕ → Table → (ℕ × Bool) × Table
prune_stale_rules prune_enabled retention_days given now t =
    let stale = stale_at (now - days (get_or given retention_days)) in
    if not prune_enabled
    then ((0, true), t)
    else ((length (keep_if stale t), false), keep_if (λ row. not (stale row)) t)

pub record Outcomes : Type 0 where
  pub pending_count : ℕ
  pub confirmed_count : ℕ
  pub rejected_count : ℕ
  pub expired_unreviewed_count : ℕ
  pub not_applicable_count : ℕ
  pub total : ℕ

abbrev pub status_number : ReviewStatus → ℕ
status_number not_applicable = 0
status_number pending = 1
status_number confirmed = 2
status_number rejected = 3
status_number expired_unreviewed = 4

-- An automatic rule, or one that has been in review, that is new enough.
abbrev pub in_window : ℕ → BlockRuleRow → Bool
in_window window_start row =
    (is_auto row.source || ltb 0 (status_number row.review_status))
    && leb window_start row.created_at

abbrev pub count_status : ReviewStatus → Table → ℕ
count_status status rows = length (
    keep_if
      (λ row.
        leb (status_number row.review_status) (status_number status)
        && leb (status_number status) (status_number row.review_status))
      rows)

unfoldable pub auto_rule_review_outcomes : ℕ → ℕ → Table → Outcomes
auto_rule_review_outcomes window_hours now t =
    let rows = keep_if (in_window (now - window_hours * 3_600_000_000)) t in
    record {
      pending_count = count_status pending rows;
      confirmed_count = count_status confirmed rows;
      rejected_count = count_status rejected rows;
      expired_unreviewed_count = count_status expired_unreviewed rows;
      not_applicable_count = count_status not_applicable rows;
      total =
          count_status not_applicable rows
          + count_status pending rows
          + count_status confirmed rows
          + count_status rejected rows
          + count_status expired_unreviewed rows;
    }
