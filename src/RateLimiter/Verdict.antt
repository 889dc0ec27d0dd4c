-- ===== src/RateLimiter/Verdict.antt =====
-- The verdict of a window, and the `Retry-After` that it gives.
use django_waf.Base.{
  ℕ, ◌+◌, ◌*◌, ◌≤◌, ◌<◌, ◌≡◌, none, some, List, ◌∷◌, Text, ltb, if◌then◌else◌, length, arith, max,
}
use django_waf.Redis.{Redis}
use django_waf.Redis.SortedSets.{SortedSetLaws, first_entry}
use django_waf.RateLimiter.{over_limit, second, retry_after_from_oldest, check_window}
use django_waf.RateLimiter.Log.{IsNewer, entry_at, entries, in_window}
use django_waf.RateLimiter.Window.{Trace, Idle, count_request-Trace}

module _ (r : Redis) (key : Text) (laws : SortedSetLaws r key) (window_seconds ttl : ℕ) where
  -- After any history of requests at rising times, in which the key may have died between requests
  -- once its EXPIRE had run out, the check of a window at `now` says that the limit is passed
  -- exactly if more than `most` requests of the history, the one at `now` among them, are younger
  -- than the window; provided that EXPIRE gives the key at least the window.
  pub check_window-Trace :
      (window : Text) (most now : ℕ) {ts : List ℕ} {s s' : r.Server}
      → window_seconds ≤ ttl
      → Trace r key laws window_seconds ttl ts s
      → IsNewer now ts
      → window_seconds * second ≤ now
      → Idle r key laws window_seconds ttl ts now s s'
      → (check_window r key window most window_seconds ttl now s').0
        ≡ some (
            if ltb most (length (in_window (window_seconds * second) now (now ∷ ts)))
            then some (
                over_limit window (
                  retry_after_from_oldest
                    (first_entry (entries (in_window (window_seconds * second) now (now ∷ ts))))
                    window_seconds
                    now))
            else none)
  unfolding check_window
  check_window-Trace window most now w tr newer k idle =
      rw (count_request-Trace r key laws window_seconds ttl now w tr newer k idle)

-- For the oldest request that still counts, the seconds to wait are at least 1 and at most the
-- window (or 1); a client that waits one second more has that request out of its window, and the
-- wait does not reach past the moment when it leaves the window, but for the floor of one second.
pub retry_after_bounds :
    (oldest window_seconds now : ℕ)
    → oldest ≤ now
    → now < oldest + window_seconds * second
    → (1 ≤ retry_after_from_oldest (some (entry_at oldest)) window_seconds now)
      × (retry_after_from_oldest (some (entry_at oldest)) window_seconds now ≤ max 1 window_seconds)
      × (oldest + window_seconds * second
          < now
            + (retry_after_from_oldest (some (entry_at oldest)) window_seconds now + 1) * second)
      × (now + retry_after_from_oldest (some (entry_at oldest)) window_seconds now * second
          ≤ max (now + second) (oldest + window_seconds * second))
unfolding retry_after_from_oldest
retry_after_bounds oldest window_seconds now h k = omega arith
