-- ===== src/Examples/Limits.antt =====
-- Examples for the rate limiter: a window of two seconds, and the paths of a login and its parent.
use django_waf.Base.{ℕ, ◌*◌, ◌≡◌, refl, none, some, [], ◌∷◌, Text, text, inl, arith}
use django_waf.RateLimiter.{
  PathLimit, over_limit, second, retry_after_from_oldest, check_window, count_request,
}
use django_waf.RateLimiter.Window.{Trace, start, hit}
use django_waf.RateLimiter.Verdict.{check_window-Trace}
use django_waf.Examples.Memory.{Memory, memory, empty_memory, memory_sets}

abbrev key : Text
key = text "waf:rate:10.0.0.1:1m"

abbrev sent : ℕ → Memory → Memory
sent now s = (count_request memory key now 2 12 s).1

-- A request at 3 s and one at 4 s.
abbrev one_hit : Memory
one_hit = sent (3 * second) empty_memory

abbrev two_hits : Memory
two_hits = sent (4 * second) one_hit

two_hits-Trace : Trace memory key (memory_sets key) 2 12 (4 * second ∷ 3 * second ∷ []) two_hits
two_hits-Trace =
    hit (4 * second)
      (hit (3 * second) (start {s = empty_memory} refl) tt (omega arith) (inl refl) refl)
      (omega arith, tt) (omega arith) (inl refl) refl

check_window-Trace_example :
    (check_window memory key (text "1m") 1 2 12 (4_500_000) two_hits).0
    ≡ some (some (over_limit (text "1m") 1))
unfolding count_request retry_after_from_oldest
check_window-Trace_example =
    check_window-Trace memory key (memory_sets key) 2 12 (text "1m") 1 4_500_000 (omega arith)
      two_hits-Trace (omega arith, (omega arith, tt)) (omega arith) (inl refl)

abbrev login : PathLimit
login = record {
  prefix = text "/login/";
  max_requests = 5;
  window_seconds = 60;
  methods = some (text "POST" ∷ []);
}

abbrev root : PathLimit
root = record { prefix = text "/"; max_requests = 100; window_seconds = 60; methods = none }
