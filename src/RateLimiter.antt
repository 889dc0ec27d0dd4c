-- ===== src/RateLimiter.antt =====
-- services/rate_limiter.py: the sliding windows over Redis sorted sets.
--
-- The thresholds and the configured paths come from conf.py; keys are built by functions that stand
-- for the f-strings of the source. A window is given in seconds, the clock in microseconds.
pub mod Log
pub mod Window
pub mod Verdict
pub mod Paths
use django_waf.Base.{
  ℕ, ◌+◌, ◌-◌, ◌*◌, ◌/◌, max, Bool, true, false, Option, none, some, List, [], ◌∷◌, Text, ltb, leb,
  if◌then◌else◌, length, any, keep_if, starts_with, is_empty, ◌=ᵗ◌, text, ◌++◌,
}
use django_waf.Exec.{Exec, pure, return_found, ◌>>=◌, ◌>>◌}
use django_waf.Redis.{Redis, Entry}

pub record RateLimitResult : Type 0 where
  pub exceeded : Bool
  pub window : Option Text
  pub retry_after : Option ℕ

abbrev pub within_limit : RateLimitResult
within_limit = record { exceeded = false; window = none; retry_after = none }

abbrev pub over_limit : Text → ℕ → RateLimitResult
over_limit window retry_after = record {
  exceeded = true;
  window = some window;
  retry_after = some retry_after;
}

abbrev pub second : ℕ
second = 1_000_000

-- `int(float(oldest_timestamp) + window_seconds - now)`, at least 1. A negative difference is cut
-- to 0 here, and is cut to 1 there too.
unfoldable pub retry_after_from_oldest : Option Entry → ℕ → ℕ → ℕ
retry_after_from_oldest none window_seconds now = max 1 window_seconds
retry_after_from_oldest (some oldest) window_seconds now =
    max 1 ((oldest.score + window_seconds * second - now) / second)

-- An entry of DJANGO_WAF_RATE_LIMIT_PATHS: the two-item form has no methods.
pub record PathLimit : Type 0 where
  pub prefix : Text
  pub max_requests : ℕ
  pub window_seconds : ℕ
  pub methods : Option (List Text)

module _ (upper : Text → Text) where
  applies_to_scope : Option (List Text) → Text → Bool
  applies_to_scope none method = true
  applies_to_scope (some methods) method =
      if is_empty method then false else any (λ m. method =ᵗ upper m) methods

  unfoldable pub entry_applies_to_method : PathLimit → Text → Bool
  unfolding applies_to_scope
  entry_applies_to_method entry method = applies_to_scope entry.methods method

-- `sorted(…, key=len, reverse=True)`, which keeps the order of prefixes of one length.
insert_by_length : PathLimit → List PathLimit → List PathLimit
insert_by_length e [] = e ∷ []
insert_by_length e (x ∷ xs) =
    let rest = insert_by_length e xs in
    if leb (length x.prefix) (length e.prefix) then e ∷ x ∷ xs else x ∷ rest

longest_first : List PathLimit → List PathLimit
longest_first [] = []
longest_first (e ∷ es) = insert_by_length e (longest_first es)

first_that : (PathLimit → Bool) → List PathLimit → Option PathLimit
first_that p [] = none
first_that p (e ∷ es) = let rest = first_that p es in if p e then some e else rest

-- The search of `_check_path_rate_limit` for the prefix that decides.
unfoldable pub matched_prefix : (Text → Text) → List PathLimit → Text → Text → Option PathLimit
unfolding insert_by_length longest_first first_that
matched_prefix upper paths path method =
    first_that (λ e. entry_applies_to_method upper e method)
      (longest_first (keep_if (λ e. starts_with path e.prefix) paths))

pub record RateConf : Type 0 where
  pub burst : ℕ
  pub per_minute : ℕ
  pub per_5min : ℕ
  pub paths : List PathLimit
  pub verify_max : ℕ
  pub verify_window_seconds : ℕ

abbrev pub window_key : Text → Text → Text
window_key ip window = text "waf:rate:" ++ ip ++ text ":" ++ window

-- `prefix_hash` stands for the first twelve digits of SHA-1.
abbrev pub path_key : (Text → Text) → Text → Text → Text
path_key prefix_hash ip prefix = text "waf:rate:" ++ ip ++ text ":path:" ++ prefix_hash prefix

abbrev pub verify_key : Text → Text
verify_key ip = text "waf:rate:verify:" ++ ip

module _ (r : Redis) where
  open r use {Server}

  -- The pipeline that each check sends: the count and the oldest entry that it gets back.
  unfoldable pub count_request : Text → ℕ → ℕ → ℕ → Exec Server (ℕ × Option Entry)
  count_request key now window_seconds ttl = do
    r.zadd key (record { member = now; score = now })
    r.zremrangebyscore key 0 (now - window_seconds * second)
    count ← r.zcard key
    oldest ← r.zrange_first key
    r.expire key ttl
    pure (count, oldest)

  abbrev judge : Text → ℕ → ℕ → ℕ → ℕ × Option Entry → Option RateLimitResult
  judge window most window_seconds now (count, oldest) =
      if ltb most count
      then some (over_limit window (retry_after_from_oldest oldest window_seconds now))
      else none

  unfoldable pub check_window : Text → Text → ℕ → ℕ → ℕ → ℕ → Exec Server (Option RateLimitResult)
  unfolding count_request
  check_window key window most window_seconds ttl now = do
    counted ← count_request key now window_seconds ttl
    pure (judge window most window_seconds now counted)

  check_matched : (Text → Text) → Text → ℕ → Option PathLimit → Exec Server (Option RateLimitResult)
  check_matched prefix_hash ip now none = pure none
  check_matched prefix_hash ip now (some entry) =
      check_window (path_key prefix_hash ip entry.prefix) (text "path") entry.max_requests
        entry.window_seconds (entry.window_seconds + 10) now

  module _ (upper prefix_hash : Text → Text) (conf : RateConf) where
    unfoldable pub check_path_rate_limit :
        Text → Text → ℕ → Text → Exec Server (Option RateLimitResult)
    unfolding check_matched
    check_path_rate_limit ip path now method =
        if is_empty path
        then pure none
        else check_matched prefix_hash ip now (matched_prefix upper conf.paths path (upper method))

    -- The loop over `_WINDOWS`: a name, the seconds, the threshold and the buffer of the key's life.
    unfoldable pub check_windows : Text → ℕ → List (Text × ℕ × ℕ × ℕ) → Exec Server RateLimitResult
    check_windows ip now [] = pure within_limit
    check_windows ip now ((window, window_seconds, threshold, buffer) ∷ windows) =
        check_window (window_key ip window) window threshold window_seconds
          (window_seconds + buffer) now
        >>= return_found (check_windows ip now windows)

    abbrev pub global_windows : List (Text × ℕ × ℕ × ℕ)
    global_windows =
        (text "1s", 1, conf.burst, 2)
        ∷ (text "1m", 60, conf.per_minute, 10)
        ∷ (text "5m", 300, conf.per_5min, 10)
        ∷ []

    unfoldable pub check_rate_limit : Text → Text → ℕ → Text → Exec Server RateLimitResult
    unfolding check_windows check_path_rate_limit
    check_rate_limit ip path now method =
        check_path_rate_limit ip path now method
        >>= return_found (check_windows ip now global_windows)

    abbrev from_option : Option RateLimitResult → RateLimitResult
    from_option none = within_limit
    from_option (some found) = found

    unfoldable pub check_verify_rate_limit : Text → ℕ → Exec Server RateLimitResult
    check_verify_rate_limit ip now = do
      found ←
          check_window (verify_key ip) (text "verify") conf.verify_max conf.verify_window_seconds
            (conf.verify_window_seconds + 10) now
      pure (from_option found)

  abbrev window_seconds_of : Text → ℕ
  window_seconds_of window =
      if window =ᵗ text "1s" then 1 else if window =ᵗ text "5m" then 300 else 60

  unfoldable pub get_request_count : Text → Text → ℕ → Exec Server ℕ
  get_request_count ip window now =
      r.zcount_from (window_key ip window) (now - window_seconds_of window * second)
