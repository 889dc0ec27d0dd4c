-- ===== src/RateLimiter/Log.antt =====
-- A log of request times, the newest first, and the sorted set that stands for it.
use django_waf.Base.{
  ℕ, ◌+◌, ◌-◌, ◌≤◌, ◌<◌, ◌≡◌, ap, inl, inr, Bool, true, not, List, [], ◌∷◌, ◌++◌, ltb, ◌==◌,
  keep_if, arith, All, All-append, All-keep_if, All-of_each, All-map, keep_if-append, keep_if-All,
  keep_if-congr, keep_if-keep_if, refl, ◌∙◌, Bool-cases, append-nil,
}
use django_waf.Redis.{Entry}
use django_waf.Redis.SortedSets.{put_entry, insert_by_score, in_range}

abbrev pub entry_at : ℕ → Entry
entry_at t = record { member = t; score = t }

-- The sorted set of the times `ts`, the newest first.
abbrev pub entries : List ℕ → List Entry
entries [] = []
entries (t ∷ ts) = entries ts ++ entry_at t ∷ []

-- The time `t` still counts at `now`, in a window of `span` microseconds.
abbrev pub is_fresh : ℕ → ℕ → ℕ → Bool
is_fresh span now t = ltb now (t + span)

abbrev pub in_window : ℕ → ℕ → List ℕ → List ℕ
in_window span now ts = keep_if (is_fresh span now) ts

-- `now` is later than every request of the log.
abbrev pub IsNewer : ℕ → List ℕ → Type 0
IsNewer now ts = All (λ t. t < now) ts

pub insert-entries :
    (now : ℕ) (es : List Entry)
    → All (λ e. e.score < now) es
    → insert_by_score (entry_at now) es ≡ es ++ entry_at now ∷ []
insert-entries now [] h = refl
insert-entries now (e ∷ es) (p, h) = ground (arith, insert-entries now es h)

pub keep-entries :
    (q : Entry → Bool) (ts : List ℕ)
    → keep_if q (entries ts) ≡ entries (keep_if (λ t. q (entry_at t)) ts)
keep-entries q [] = refl
keep-entries q (t ∷ ts) = rw keep_if-append (elim (Bool-cases (q (entry_at t))) [
  | inl e ↦ rw e (ap (λ es. es ++ entry_at t ∷ []) (keep-entries q ts))
  | inr e ↦ rw (e, append-nil) (keep-entries q ts)
])

All-entries : (P : Entry → Type 0) (ts : List ℕ) → All (λ t. P (entry_at t)) ts → All P (entries ts)
All-entries P [] _ = tt
All-entries P (t ∷ ts) (p, h) =
    All-append P (entries ts) (entry_at t ∷ []) (All-entries P ts h) (p, tt)

-- ZADD of a later time puts it behind the others.
pub put-entries :
    (now : ℕ) (ts : List ℕ)
    → IsNewer now ts
    → put_entry (entry_at now) (entries ts) ≡ entries (now ∷ ts)
put-entries now ts h =
    let others : All (λ e. not (e.member == now) ≡ true) (entries ts) =
      All-entries _ ts (All-map (λ t p. ground arith) ts h) in
    rw (keep_if-All _ (entries ts) others) (insert-entries now (entries ts) (All-entries _ ts h))

-- ZREMRANGEBYSCORE of all up to the cutoff leaves the times that still count.
pub zrem-entries :
    (span now : ℕ) (ts : List ℕ)
    → span ≤ now
    → keep_if (λ e. not (in_range 0 (now - span) e)) (entries ts) ≡ entries (in_window span now ts)
zrem-entries span now ts h =
    keep-entries _ ts ∙ ap entries (keep_if-congr _ _ ts (All-of_each _ (λ t. ground arith) ts))

-- A time that counts now has counted before.
pub in_window-in_window :
    (span before now : ℕ) (ts : List ℕ)
    → before ≤ now
    → in_window span now (in_window span before ts) ≡ in_window span now ts
in_window-in_window span before now ts h =
    keep_if-keep_if _ _ ts (All-of_each _ (λ t. ground arith) ts)

pub in_window-IsNewer :
    (span before now : ℕ) (ts : List ℕ) → IsNewer now ts → IsNewer now (in_window span before ts)
in_window-IsNewer span before now ts h = All-keep_if _ _ ts h
