-- ===== src/RateLimiter/Window.antt =====
-- The sliding window that `count_request` keeps in a sorted set, against a log of request times.
use django_waf.Base.{
  ℕ, ◌+◌, ◌*◌, ◌-◌, ◌≤◌, ◌<◌, ◌≡◌, ap, ◌⊎◌, inl, inr, not, Option, some, List, [], ◌∷◌, Text,
  length, keep_if, arith, All, All-map, refl, false, keep_if-none, ◌∙◌, sym, length-append,
}
use django_waf.Redis.{Redis, Entry}
use django_waf.Redis.SortedSets.{SortedSetLaws, put_entry, in_range, first_entry}
use django_waf.RateLimiter.{second, count_request}
use django_waf.RateLimiter.Log.{
  IsNewer, entries, entry_at, in_window, in_window-IsNewer, in_window-in_window, is_fresh,
  put-entries, zrem-entries,
}

module _ (r : Redis) (key : Text) (laws : SortedSetLaws r key) (window_seconds ttl : ℕ) where
  open r use {Server}
  open laws use {zset}

  abbrev pub span : ℕ
  span = window_seconds * second

  -- The set after a request, by the documented effect of each command.
  abbrev recounted : ℕ → Server → List Entry
  recounted now s =
      keep_if (λ e. not (in_range 0 (now - span) e)) (put_entry (entry_at now) (zset s))

  abbrev pub request : ℕ → Server → Option (ℕ × Option Entry) × Server
  request now = count_request r key now window_seconds ttl

  zset-request : (now : ℕ) (s : Server) → zset (request now s).1 ≡ recounted now s
  unfolding count_request
  zset-request now s = simp (
    laws.zadd_answers, laws.zrem_answers, laws.zcard_lem, laws.zrange_lem, laws.expire_answers,
    laws.zset-expire, laws.zset-zrem, laws.zset-zadd,
  )

  answer-request :
      (now : ℕ) (s : Server)
      → (request now s).0 ≡ some (length (recounted now s), first_entry (recounted now s))
  unfolding count_request
  answer-request now s = simp (
    laws.zadd_answers, laws.zrem_answers, laws.zcard_lem, laws.zrange_lem, laws.expire_answers,
    laws.zset-zrem, laws.zset-zadd,
  )

  -- While the services are idle the key keeps its set, or dies, no sooner than EXPIRE said.
  abbrev pub Lapsed : List ℕ → ℕ → Type 0
  Lapsed [] now = Unit
  Lapsed (t ∷ ts) now = t + ttl * second ≤ now

  abbrev pub Idle : List ℕ → ℕ → Server → Server → Type 0
  Idle ts now s s' = (zset s' ≡ zset s) ⊎ ((zset s' ≡ []) × Lapsed ts now)

  -- The servers that requests at the times of a log, the newest first, lead to.
  pub data Trace : List ℕ → Server → Type 0 where
    start : {s : Server} → zset s ≡ [] → Trace [] s
    hit :
        {ts : List ℕ} {s s' u : Server} (now : ℕ)
        → Trace ts s
        → IsNewer now ts
        → span ≤ now
        → Idle ts now s s'
        → u ≡ (request now s').1
        → Trace (now ∷ ts) u

  -- What the set holds at `now`: the times that counted at the newest request of the log.
  abbrev held : List ℕ → List ℕ
  held [] = []
  held (t ∷ ts) = in_window span t (t ∷ ts)

  held-IsNewer : (now : ℕ) (ts : List ℕ) → IsNewer now ts → IsNewer now (held ts)
  held-IsNewer now [] h = tt
  held-IsNewer now (t ∷ ts) h = in_window-IsNewer span t now (t ∷ ts) h

  in_window-held :
      (now : ℕ) (ts : List ℕ)
      → IsNewer now ts
      → in_window span now (held ts) ≡ in_window span now ts
  in_window-held now [] h = refl
  in_window-held now (t ∷ ts) (p, h) = in_window-in_window span t now (t ∷ ts) (omega arith)

  -- A request on a set that holds `ks` leaves the times of `now ∷ ks` that still count.
  recounted_lem :
      (now : ℕ) (ks : List ℕ) (s : Server)
      → zset s ≡ entries ks
      → IsNewer now ks
      → span ≤ now
      → recounted now s ≡ entries (in_window span now (now ∷ ks))
  recounted_lem now ks s e h k = rw (e, put-entries now ks h) (zrem-entries span now (now ∷ ks) k)

  -- Every time of a log whose key has died is out of the window.
  lapsed_lem :
      (t now : ℕ) (ts : List ℕ)
      → window_seconds ≤ ttl
      → All (λ u. u < t) ts
      → t + ttl * second ≤ now
      → in_window span now (t ∷ ts) ≡ []
  lapsed_lem t now ts w h l =
      let old : is_fresh span now t ≡ false = grind arith in
      let older : All (λ u. is_fresh span now u ≡ false) ts = All-map (λ u p. ground arith) ts h in
      keep_if-none (is_fresh span now) (t ∷ ts) (old, older)

  abbrev Descends : List ℕ → Type 0
  Descends [] = Unit
  Descends (t ∷ ts) = IsNewer t ts × Descends ts

  Trace-Descends : {ts : List ℕ} {s : Server} → Trace ts s → Descends ts
  Trace-Descends (start e) = tt
  Trace-Descends (hit now tr newer k idle e) = (newer, Trace-Descends tr)

  in_window-cons :
      (now : ℕ) (ks ts : List ℕ)
      → in_window span now ks ≡ in_window span now ts
      → in_window span now (now ∷ ks) ≡ in_window span now (now ∷ ts)
  in_window-cons now ks ts e = ground arith

  dead_lem :
      (now : ℕ) (ts : List ℕ)
      → window_seconds ≤ ttl
      → Descends ts
      → Lapsed ts now
      → in_window span now [] ≡ in_window span now ts
  dead_lem now [] w d l = refl
  dead_lem now (t ∷ ts) w d l = sym (lapsed_lem t now ts w d.0 l)

  -- One more request, after the services were idle, leaves exactly the times that count.
  recounted-Idle :
      (now : ℕ) (ts : List ℕ) (s s' : Server)
      → window_seconds ≤ ttl
      → zset s ≡ entries (held ts)
      → Descends ts
      → IsNewer now ts
      → span ≤ now
      → Idle ts now s s'
      → recounted now s' ≡ entries (in_window span now (now ∷ ts))
  recounted-Idle now ts s s' w e d newer k (inl same) =
      recounted_lem now (held ts) s' (same ∙ e) (held-IsNewer now ts newer) k
      ∙ ap entries (in_window-cons now (held ts) ts (in_window-held now ts newer))
  recounted-Idle now ts s s' w e d newer k (inr (dead, lapsed)) =
      recounted_lem now [] s' dead tt k
      ∙ ap entries (in_window-cons now [] ts (dead_lem now ts w d lapsed))

  zset-Trace :
      {ts : List ℕ} {s : Server} → window_seconds ≤ ttl → Trace ts s → zset s ≡ entries (held ts)
  zset-Trace w (start e) = e
  zset-Trace w (hit {ts} {s} {s'} now tr newer k idle e) = rw e (
      zset-request now s'
      ∙ recounted-Idle now ts s s' w (zset-Trace w tr) (Trace-Descends tr) newer k idle)

  length-entries : (ts : List ℕ) → length (entries ts) ≡ length ts
  length-entries [] = refl
  length-entries (t ∷ ts) =
      omega (arith, length-append (entries ts) (entry_at t ∷ []), length-entries ts)

  -- The answer to a request after a history counts the requests of the history, itself among them,
  -- that are younger than the window.
  pub count_request-Trace :
      {ts : List ℕ} {s s' : Server} (now : ℕ)
      → window_seconds ≤ ttl
      → Trace ts s
      → IsNewer now ts
      → span ≤ now
      → Idle ts now s s'
      → (request now s').0
        ≡ some (
          length (in_window span now (now ∷ ts)),
          first_entry (entries (in_window span now (now ∷ ts))),
        )
  count_request-Trace {ts} {s} {s'} now w tr newer k idle =
      let e : recounted now s' ≡ entries (in_window span now (now ∷ ts)) =
        recounted-Idle now ts s s' w (zset-Trace w tr) (Trace-Descends tr) newer k idle in
      answer-request now s' ∙ rw e (rw length-entries refl)
