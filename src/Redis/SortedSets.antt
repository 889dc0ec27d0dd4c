-- ===== src/Redis/SortedSets.antt =====
-- What the Redis documentation says of the sorted-set commands, as hypotheses about one key: the
-- elements of the key stand in ascending order of their scores.
use django_waf.Base.{
  ℕ, ◌≡◌, Bool, not, ◌&&◌, Option, none, some, List, [], ◌∷◌, Text, leb, ◌==◌, if◌then◌else◌,
  length, keep_if,
}
use django_waf.Redis.{Redis, Entry}

-- ZADD: an element of the same member is replaced, and the new one stands behind all whose score
-- is not greater.
abbrev pub insert_by_score : Entry → List Entry → List Entry
insert_by_score e [] = e ∷ []
insert_by_score e (x ∷ xs) =
    let rest = insert_by_score e xs in if leb x.score e.score then x ∷ rest else e ∷ x ∷ xs

abbrev pub put_entry : Entry → List Entry → List Entry
put_entry e xs = insert_by_score e (keep_if (λ x. not (x.member == e.member)) xs)

-- ZREMRANGEBYSCORE: both ends are inside the range.
abbrev pub in_range : ℕ → ℕ → Entry → Bool
in_range lo hi e = leb lo e.score && leb e.score hi

abbrev pub first_entry : List Entry → Option Entry
first_entry [] = none
first_entry (x ∷ xs) = some x

-- The commands on `key` answer, and do what is documented to the elements of `key`.
pub record SortedSetLaws (r : Redis) (key : Text) : Type 0 where
  pub zset : r.Server → List Entry
  pub zadd_answers : (e : Entry) (s : r.Server) → (r.zadd key e s).0 ≡ some tt
  pub zset-zadd : (e : Entry) (s : r.Server) → zset (r.zadd key e s).1 ≡ put_entry e (zset s)
  pub zrem_answers : (lo hi : ℕ) (s : r.Server) → (r.zremrangebyscore key lo hi s).0 ≡ some tt
  pub zset-zrem :
      (lo hi : ℕ) (s : r.Server)
      → zset (r.zremrangebyscore key lo hi s).1 ≡ keep_if (λ e. not (in_range lo hi e)) (zset s)
  pub zcard_lem : (s : r.Server) → r.zcard key s ≡ (some (length (zset s)), s)
  pub zrange_lem : (s : r.Server) → r.zrange_first key s ≡ (some (first_entry (zset s)), s)
  pub expire_answers : (ttl : ℕ) (s : r.Server) → (r.expire key ttl s).0 ≡ some tt
  pub zset-expire : (ttl : ℕ) (s : r.Server) → zset (r.expire key ttl s).1 ≡ zset s
