-- ===== src/Redis.antt =====
-- The Redis client, which the package takes from django-redis: the commands that the services send,
-- as a record that every service has for a parameter. A command may raise (`Exec`).
--
-- Times are microseconds since the epoch. The services give a sorted-set entry the member
-- `str(now)` and the score `now`; the member stands here as that number.
pub mod SortedSets
pub mod Strings
use django_waf.Base.{ℕ, Bool, Option, List, Text}
use django_waf.Exec.{Exec}

-- A member and its score.
pub record Entry : Type 0 where
  pub member : ℕ
  pub score : ℕ

-- What a pipeline queues; the answer to EXPIRE is a number too.
pub data Command : Type 0 where
  incr_command : (key : Text) → Command
  expire_command : (key : Text) (seconds : ℕ) → Command

pub record Redis : Type 1 where
  pub Server : Type 0
  pub get : Text → Exec Server (Option Text)
  pub setex : Text → ℕ → Text → Exec Server (Unit {0})
  -- SET key value NX EX ttl: whether the key was set
  pub set_nx : Text → Text → ℕ → Exec Server Bool
  pub exists : Text → Exec Server Bool
  pub delete : Text → Exec Server (Unit {0})
  pub incr : Text → Exec Server ℕ
  pub expire : Text → ℕ → Exec Server (Unit {0})
  pub hincrby : Text → Text → ℕ → Exec Server (Unit {0})
  pub zadd : Text → Entry → Exec Server (Unit {0})
  pub zremrangebyscore : Text → ℕ → ℕ → Exec Server (Unit {0})
  pub zcard : Text → Exec Server ℕ
  -- ZRANGE key 0 0 WITHSCORES
  pub zrange_first : Text → Exec Server (Option Entry)
  -- ZCOUNT key min +inf
  pub zcount_from : Text → ℕ → Exec Server ℕ
  -- a pipeline's `execute()`: the answers, in the order of the commands
  pub execute : List Command → Exec Server (List ℕ)
