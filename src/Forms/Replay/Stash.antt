-- ===== src/Forms/Replay/Stash.antt =====
-- forms/services/replay.py: the records of submissions in the session.
--
-- A session that is absent is one that the session framework does not provide. The stash is a
-- dictionary in the order of insertion, or `none` where the session's value is no dictionary.
pub mod Bounds
use django_waf.Base.{
  ℕ, ◌+◌, ◌-◌, Bool, true, false, not, Option, none, some, List, [], ◌∷◌, ◌++◌, Text, ltb, leb,
  if◌then◌else◌, ◌=ᵗ◌, keep_if, take, length, lookup, is_some,
}
use django_waf.Forms.Replay.{filter_sensitive_fields}

pub record ReplayRecord : Type 0 where
  pub form_id : Text
  pub post_url : Text
  pub fields : List (Text × Text)
  pub stored_at : ℕ

abbrev pub Stash : Type 0
Stash = List (Text × ReplayRecord)

pub data Session : Type 0 where
  no_session : Session
  session : Option Stash → Session

-- `stash.get(…, {})`, with an empty dictionary for what is no dictionary
abbrev pub or_new : Option Stash → Stash
or_new none = []
or_new (some stash) = stash

-- `stash[key] = record`
put : Text → ReplayRecord → Stash → Stash
put key rec [] = (key, rec) ∷ []
put key rec ((k, old) ∷ stash) =
    let rest = put key rec stash in if k =ᵗ key then (k, rec) ∷ stash else (k, old) ∷ rest

abbrev pub pop : Text → Stash → Stash
pop key stash = keep_if (λ entry. not (entry.0 =ᵗ key)) stash

-- The stable sort by the time of storing.
insert_by_age : Text × ReplayRecord → Stash → Stash
insert_by_age e [] = e ∷ []
insert_by_age e (x ∷ sorted) =
    let rest = insert_by_age e sorted in
    if leb e.1.stored_at x.1.stored_at then e ∷ x ∷ sorted else x ∷ rest

oldest_first : Stash → Stash
oldest_first [] = []
oldest_first (e ∷ stash) = insert_by_age e (oldest_first stash)

pop_all : Stash → Stash → Stash
pop_all [] stash = stash
pop_all (e ∷ old) stash = pop_all old (pop e.0 stash)

-- At most five records: the oldest go.
trim : Stash → Stash
unfolding oldest_first pop_all
trim stash =
    if ltb 5 (length stash)
    then pop_all (take (length stash - 5) (oldest_first stash)) stash
    else stash

-- `key` is the random one.
abbrev pub new_record : Text → Text → List (Text × Text) → ℕ → ReplayRecord
new_record form_id post_url fields now = record {
  form_id = form_id;
  post_url = post_url;
  fields = filter_sensitive_fields fields;
  stored_at = now;
}

unfoldable pub store_in_session :
    Text → Text → Text → List (Text × Text) → ℕ → Session → Option Text × Session
unfolding put insert_by_age oldest_first pop_all trim
store_in_session key form_id post_url fields now no_session = (none, no_session)
store_in_session key form_id post_url fields now (session stash) = (
  some key,
  session (some (trim (put key (new_record form_id post_url fields now) (or_new stash)))),
)

fresh_only : ℕ → Option ReplayRecord → Option ReplayRecord
fresh_only now none = none
fresh_only now (some rec) = if ltb (rec.stored_at + 120) now then none else some rec

unfoldable pub fetch_from_session : Text → ℕ → Session → Option ReplayRecord
unfolding fresh_only
fetch_from_session session_key now no_session = none
fetch_from_session session_key now (session none) = none
fetch_from_session session_key now (session (some stash)) =
    fresh_only now (lookup session_key stash)

unfoldable pub discard_from_session : Text → Session → Session
discard_from_session session_key no_session = no_session
discard_from_session session_key (session none) = session none
discard_from_session session_key (session (some stash)) =
    if is_some (lookup session_key stash)
    then session (some (pop session_key stash))
    else session (some stash)
