-- ===== src/Redis/Strings.antt =====
-- What the Redis documentation says of the string commands, as hypotheses: GET gives what SETEX
-- wrote last, while the key lives.
use django_waf.Base.{ℕ, ◌≡◌, ◌≢◌, Bool, false, Option, some, Text}
use django_waf.Redis.{Redis}

-- A value with the seconds that it was given to live.
pub record Cell : Type 0 where
  pub value : Text
  pub ttl : ℕ

-- `cell s k` is what the key holds at this moment.
pub record StringLaws (r : Redis) : Type 0 where
  pub cell : r.Server → Text → Option Cell
  pub cell-setex :
      (k v : Text) (ttl : ℕ) (s : r.Server)
      → cell (r.setex k ttl v s).1 k ≡ some (record { value = v; ttl = ttl })
  pub cell-setex_ne :
      (k j v : Text) (ttl : ℕ) (s : r.Server) → k ≢ j → cell (r.setex k ttl v s).1 j ≡ cell s j
  pub cell-hincrby : (k f j : Text) (n : ℕ) (s : r.Server) → cell (r.hincrby k f n s).1 j ≡ cell s j
  pub setex_answers : (k v : Text) (ttl : ℕ) (s : r.Server) → (r.setex k ttl v s).0 ≡ some tt
  pub hincrby_answers : (k f : Text) (n : ℕ) (s : r.Server) → (r.hincrby k f n s).0 ≡ some tt

-- EXISTS tells whether a key is there, and DEL takes it away; neither fails.
pub record KeyLaws (r : Redis) : Type 0 where
  pub present : r.Server → Text → Bool
  pub exists_answers : (k : Text) (s : r.Server) → (r.exists k s).0 ≡ some (present s k)
  pub delete_answers : (k : Text) (s : r.Server) → (r.delete k s).0 ≡ some tt
  pub present-delete : (k : Text) (s : r.Server) → present (r.delete k s).1 k ≡ false

-- GET and EXISTS change nothing.
pub record ReadLaws (r : Redis) : Type 0 where
  pub get_stays : (k : Text) (s : r.Server) → (r.get k s).1 ≡ s
  pub exists_stays : (k : Text) (s : r.Server) → (r.exists k s).1 ≡ s
