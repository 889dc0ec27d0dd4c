-- ===== src/Forms/Replay/Stash/Bounds.antt =====
-- What the stash never holds: more than five records, or the value of a sensitive field.
use django_waf.Base.{
  ℕ, ◌+◌, ◌-◌, ◌≤◌, ◌<◌, ◌≡◌, refl, Bool, true, false, not, Option, none, some, List, [], ◌∷◌, Text,
  ltb, ◌=ᵗ◌, =ᵗ_refl, keep_if, take, length, length-keep_if, lookup, is_some, arith, Bool-cases,
  Option-cases, inl, inr, In, All, All-keep_if, All-map, All-of_In,
}
use django_waf.Forms.Replay.{is_sensitive_field, filter_sensitive_fields}
use django_waf.Forms.Replay.Stash.{
  ReplayRecord, Stash, Session, no_session, session, or_new, put, pop, insert_by_age, oldest_first,
  pop_all, trim, new_record, store_in_session, fresh_only, fetch_from_session, discard_from_session,
}

length-put :
    (key : Text) (rec : ReplayRecord) (stash : Stash)
    → length (put key rec stash) ≤ length stash + 1
unfolding put
length-put key rec [] = omega arith
length-put key rec ((k, old) ∷ stash) = ground (arith, length-put key rec stash)

length-pop :
    (e : Text × ReplayRecord) (stash : Stash) → In e stash → length (pop e.0 stash) < length stash
length-pop e [] i = absurd i
length-pop e (x ∷ stash) (inl same) =
    let found : (x.0 =ᵗ e.0) ≡ true = rw same (=ᵗ_refl x.0) in
    rw found (omega (arith, length-keep_if (λ entry. not (entry.0 =ᵗ e.0)) stash))
length-pop e (x ∷ stash) (inr i) = ground (arith, length-pop e stash i)

length-insert : (e : Text × ReplayRecord) (xs : Stash) → length (insert_by_age e xs) ≡ length xs + 1
unfolding insert_by_age
length-insert e [] = omega arith
length-insert e (x ∷ xs) = ground (arith, length-insert e xs)

length-oldest_first : (stash : Stash) → length (oldest_first stash) ≡ length stash
unfolding oldest_first
length-oldest_first [] = refl
length-oldest_first (e ∷ stash) =
    omega (arith, length-insert e (oldest_first stash), length-oldest_first stash)

module _ (P : Text × ReplayRecord → Type 0) where
  All-insert : (e : Text × ReplayRecord) (xs : Stash) → P e → All P xs → All P (insert_by_age e xs)
  unfolding insert_by_age
  All-insert e [] p _ = (p, tt)
  All-insert e (x ∷ xs) p (q, h) = ground (arith, All-insert e xs p h)

  All-oldest_first : (stash : Stash) → All P stash → All P (oldest_first stash)
  unfolding oldest_first
  All-oldest_first [] _ = tt
  All-oldest_first (e ∷ stash) (p, h) =
      All-insert e (oldest_first stash) p (All-oldest_first stash h)

  All-put :
      (key : Text) (rec : ReplayRecord) (stash : Stash)
      → P (key, rec)
      → ((k : Text) → (k =ᵗ key) ≡ true → P (k, rec))
      → All P stash
      → All P (put key rec stash)
  unfolding put
  All-put key rec [] p q _ = (p, tt)
  All-put key rec ((k, old) ∷ stash) p q (h, hs) = elim (Bool-cases (k =ᵗ key)) [
    | inl e ↦ rw e (q k e, hs)
    | inr e ↦ rw e (h, All-put key rec stash p q hs)
  ]

  All-pop_all : (old stash : Stash) → All P stash → All P (pop_all old stash)
  unfolding pop_all
  All-pop_all [] stash h = h
  All-pop_all (e ∷ old) stash h =
      All-pop_all old (pop e.0 stash) (All-keep_if P (λ entry. not (entry.0 =ᵗ e.0)) stash h)

  All-trim : (stash : Stash) → All P stash → All P (trim stash)
  unfolding trim
  All-trim stash h = elim (Bool-cases (ltb 5 (length stash))) [
    | inl e ↦ rw e (All-pop_all (take (length stash - 5) (oldest_first stash)) stash h)
    | inr e ↦ rw e h
  ]

popped_one :
    (stash sorted : Stash)
    → length stash ≡ 6
    → length sorted ≡ 6
    → All (λ e. In e stash) sorted
    → length (pop_all (take 1 sorted) stash) ≤ 5
unfolding pop_all
popped_one stash [] n m _ = omega arith
popped_one stash (e ∷ sorted) n m (i, _) = omega (arith, length-pop e stash i)

length-trim : (stash : Stash) → length stash ≤ 6 → length (trim stash) ≤ 5
unfolding trim
length-trim stash h = elim (Bool-cases (ltb 5 (length stash))) [
  | inr e ↦ rw e (ground arith)
  | inl e ↦
      let six : length stash ≡ 6 = ground arith in
      let one : length stash - 5 ≡ 1 = omega arith in
      rw (e, one)
        (popped_one stash (oldest_first stash) six (omega (arith, length-oldest_first stash))
          (All-oldest_first (λ x. In x stash) stash (All-of_In (λ x. In x stash) stash (λ a i. i))))
]

abbrev pub NoSecrets : Text × ReplayRecord → Type 0
NoSecrets e = All (λ f. is_sensitive_field f.0 ≡ false) e.1.fields

All-kept : {A : Type 0} (p : A → Bool) (xs : List A) → All (λ x. p x ≡ true) (keep_if p xs)
All-kept p [] = tt
All-kept p (x ∷ xs) = ground (arith, All-kept p xs)

filter-NoSecrets :
    (fields : List (Text × Text))
    → All (λ f. is_sensitive_field f.0 ≡ false) (filter_sensitive_fields fields)
unfolding filter_sensitive_fields
filter-NoSecrets fields =
    All-map (λ f h. ground arith) _ (All-kept (λ f. not (is_sensitive_field f.0)) fields)

unfoldable pub WellKept : Session → Type 0
WellKept no_session = Unit
WellKept (session none) = Unit
WellKept (session (some stash)) = (length stash ≤ 5) × All NoSecrets stash

or_new-WellKept :
    (o : Option Stash) → WellKept (session o) → (length (or_new o) ≤ 5) × All NoSecrets (or_new o)
unfolding WellKept
or_new-WellKept none _ = (omega arith, tt)
or_new-WellKept (some stash) h = h

store-WellKept :
    (key form_id post_url : Text) (fields : List (Text × Text)) (now : ℕ) (s : Session)
    → WellKept s
    → WellKept (store_in_session key form_id post_url fields now s).1
unfolding store_in_session WellKept
store-WellKept key form_id post_url fields now no_session h = tt
store-WellKept key form_id post_url fields now (session o) h =
    let (n, kept) = or_new-WellKept o h in
    let rec : ReplayRecord = new_record form_id post_url fields now in
    (
      length-trim (put key rec (or_new o)) (omega (arith, length-put key rec (or_new o))),
      All-trim NoSecrets (put key rec (or_new o)) (
          All-put NoSecrets key rec (or_new o) (filter-NoSecrets fields)
            (λ k _. filter-NoSecrets fields) kept),
    )

discard-WellKept : (key : Text) (s : Session) → WellKept s → WellKept (discard_from_session key s)
unfolding discard_from_session WellKept
discard-WellKept key no_session h = tt
discard-WellKept key (session none) h = tt
discard-WellKept key (session (some stash)) (n, kept) =
    elim (Bool-cases (is_some (lookup key stash))) [
      | inr e ↦ rw e (n, kept)
      | inl e ↦ rw e (
        omega (arith, length-keep_if (λ entry. not (entry.0 =ᵗ key)) stash),
        All-keep_if NoSecrets (λ entry. not (entry.0 =ᵗ key)) stash kept,
      )
    ]

-- Storing a submission and discarding one keep a session well: its stash has at most five records,
-- and no record has a field whose name is sensitive, whatever was submitted.
pub stash-WellKept :
    (key form_id post_url : Text) (fields : List (Text × Text)) (now : ℕ) (s : Session)
    → WellKept s
    → WellKept (store_in_session key form_id post_url fields now s).1
      × WellKept (discard_from_session key s)
stash-WellKept key form_id post_url fields now s h =
    (store-WellKept key form_id post_url fields now s h, discard-WellKept key s h)

lookup-pop : (key : Text) (stash : Stash) → lookup key (pop key stash) ≡ none
lookup-pop key [] = refl
lookup-pop key ((k, rec) ∷ stash) = elim (Bool-cases (k =ᵗ key)) [
  | inl e ↦ rw e (lookup-pop key stash)
  | inr e ↦ simp (e, lookup-pop key stash)
]

-- What was discarded is not found again.
pub fetch-discard :
    (key : Text) (now : ℕ) (s : Session)
    → fetch_from_session key now (discard_from_session key s) ≡ none
unfolding fetch_from_session fresh_only discard_from_session
fetch-discard key now no_session = refl
fetch-discard key now (session none) = refl
fetch-discard key now (session (some stash)) = elim (Option-cases (lookup key stash)) [
  | inl e ↦ simp e
  | inr (rec, e) ↦ simp (e, lookup-pop key stash)
]
