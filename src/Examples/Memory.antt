-- ===== src/Examples/Memory.antt =====
-- A Redis server in memory that never fails and whose keys do not die, and its laws.
use django_waf.Base.{
  ℕ, ◌+◌, ◌≡◌, ◌≢◌, refl, true, false, not, Option, none, some, List, [], ◌∷◌, Text, if◌then◌else◌,
  ◌=ᵗ◌, =ᵗ_refl, =ᵗ_iff, length, keep_if, leb, is_some, Bool-cases, inl, inr,
}
use django_waf.Redis.{Redis, Entry, Command, incr_command, expire_command}
use django_waf.Redis.SortedSets.{SortedSetLaws, put_entry, in_range, first_entry}
use django_waf.Redis.Strings.{Cell, StringLaws, KeyLaws, ReadLaws}

pub record Memory : Type 0 where
  pub cells : Text → Option Cell
  pub zsets : Text → List Entry
  pub counters : Text → ℕ

-- The map with one key changed.
abbrev pub at_key : {A : Type 0} → Text → A → (Text → A) → Text → A
at_key k a f j = if k =ᵗ j then a else f j

abbrev value_of : Option Cell → Option Text
value_of none = none
value_of (some c) = some c.value

abbrev pub put_cell : Text → Text → ℕ → Memory → Memory
put_cell k v ttl s = record s { cells = at_key k (some (record { value = v; ttl = ttl })) s.cells }

abbrev map_option : {A B : Type 0} → (A → B) → Option A → Option B
map_option f none = none
map_option f (some a) = some (f a)

abbrev count_up : Text → Memory → Memory
count_up k s = record s { counters = at_key k (s.counters k + 1) s.counters }

abbrev execute_all : List Command → Memory → Option (List ℕ) × Memory
execute_all [] s = (some [], s)
execute_all (incr_command k ∷ commands) s =
    let (answers, after) = execute_all commands (count_up k s) in
    (map_option (λ rest. (s.counters k + 1) ∷ rest) answers, after)
execute_all (expire_command k ttl ∷ commands) s =
    let (answers, after) = execute_all commands s in (map_option (λ rest. 1 ∷ rest) answers, after)

abbrev pub memory : Redis
memory = record {
  Server = Memory;
  get = λ k s. (some (value_of (s.cells k)), s);
  setex = λ k ttl v s. (some tt, put_cell k v ttl s);
  set_nx =
      λ k v ttl s. if is_some (s.cells k) then (some false, s) else (some true, put_cell k v ttl s);
  exists = λ k s. (some (is_some (s.cells k)), s);
  delete = λ k s. (some tt, record s { cells = at_key k none s.cells });
  incr = λ k s.
      (some (s.counters k + 1), record s { counters = at_key k (s.counters k + 1) s.counters });
  expire = λ k ttl s. (some tt, s);
  hincrby = λ k f n s. (some tt, s);
  zadd = λ k e s. (some tt, record s { zsets = at_key k (put_entry e (s.zsets k)) s.zsets });
  zremrangebyscore = λ k lo hi s. (
    some tt,
    record s { zsets = at_key k (keep_if (λ e. not (in_range lo hi e)) (s.zsets k)) s.zsets },
  );
  zcard = λ k s. (some (length (s.zsets k)), s);
  zrange_first = λ k s. (some (first_entry (s.zsets k)), s);
  execute = λ commands s. execute_all commands s;
  zcount_from = λ k min s. (some (length (keep_if (λ e. leb min e.score) (s.zsets k))), s);
}

abbrev pub empty_memory : Memory
empty_memory = record { cells = λ _. none; zsets = λ _. []; counters = λ _. 0 }

pub at_key_same : {A : Type 0} (k : Text) (a : A) (f : Text → A) → at_key k a f k ≡ a
at_key_same k a f = rw (=ᵗ_refl k) refl

pub at_key_other : {A : Type 0} (k j : Text) (a : A) (f : Text → A) → k ≢ j → at_key k a f j ≡ f j
at_key_other k j a f ne = elim (Bool-cases (k =ᵗ j)) [
  | inl e ↦ absurd (ne ((=ᵗ_iff k j).0 e))
  | inr e ↦ rw e refl
]

abbrev pub memory_sets : (key : Text) → SortedSetLaws memory key
memory_sets key = record {
  zset = λ s. s.zsets key;
  zadd_answers = λ e s. refl;
  zset-zadd = λ e s. at_key_same key _ s.zsets;
  zrem_answers = λ lo hi s. refl;
  zset-zrem = λ lo hi s. at_key_same key _ s.zsets;
  zcard_lem = λ s. refl;
  zrange_lem = λ s. refl;
  expire_answers = λ ttl s. refl;
  zset-expire = λ ttl s. refl;
}

abbrev pub memory_strings : StringLaws memory
memory_strings = record {
  cell = λ s k. s.cells k;
  cell-setex = λ k v ttl s. at_key_same k _ s.cells;
  cell-setex_ne = λ k j v ttl s ne. at_key_other k j _ s.cells ne;
  cell-hincrby = λ k f j n s. refl;
  setex_answers = λ k v ttl s. refl;
  hincrby_answers = λ k f n s. refl;
}

abbrev pub memory_keys : KeyLaws memory
memory_keys = record {
  present = λ s k. is_some (s.cells k);
  exists_answers = λ k s. refl;
  delete_answers = λ k s. refl;
  present-delete = λ k s. rw (at_key_same k none s.cells) refl;
}

abbrev pub memory_reads : ReadLaws memory
memory_reads = record { get_stays = λ k s. refl; exists_stays = λ k s. refl }
