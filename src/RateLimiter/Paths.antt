-- ===== src/RateLimiter/Paths.antt =====
-- Which entry of DJANGO_WAF_RATE_LIMIT_PATHS decides.
use django_waf.Base.{
  ◌↔◌, Option-cases, ◌≤◌, ◌≡◌, inl, inr, Bool, true, false, none, some, List, [], ◌∷◌, Text, leb,
  length, keep_if, starts_with, All, In, In-keep_if, All-In, arith, Bool-cases, All-map, All-of_In,
  In-self_keep_if,
}
use native.Mathlib.Nat.{le_refl}
use mathlib.Core.Path.{subst}
use django_waf.RateLimiter.{
  PathLimit, insert_by_length, longest_first, first_that, entry_applies_to_method, matched_prefix,
}

abbrev IsLongest : PathLimit → List PathLimit → Type 0
IsLongest e es = All (λ f. length f.prefix ≤ length e.prefix) es

abbrev IsSorted : List PathLimit → Type 0
IsSorted [] = Unit
IsSorted (e ∷ es) = IsLongest e es × IsSorted es

module _ (P : PathLimit → Type 0) where
  All-insert_by_length :
      (e : PathLimit) (es : List PathLimit) → P e → All P es → All P (insert_by_length e es)
  unfolding insert_by_length
  All-insert_by_length e [] p h = (p, tt)
  All-insert_by_length e (x ∷ es) p (q, h) = ground (arith, All-insert_by_length e es p h)

  All-insert_by_length_inv :
      (e : PathLimit) (es : List PathLimit) → All P (insert_by_length e es) → P e × All P es
  unfolding insert_by_length
  All-insert_by_length_inv e [] h = (h.0, tt)
  All-insert_by_length_inv e (x ∷ es) h = ground (arith, All-insert_by_length_inv e es)

All-longest_first_inv :
    (P : PathLimit → Type 0) (es : List PathLimit) → All P (longest_first es) → All P es
unfolding longest_first
All-longest_first_inv P [] h = tt
All-longest_first_inv P (e ∷ es) h =
    let (p, rest) = All-insert_by_length_inv P e (longest_first es) h in
    (p, All-longest_first_inv P es rest)

All-longest_first :
    (P : PathLimit → Type 0) (es : List PathLimit) → All P es → All P (longest_first es)
unfolding longest_first
All-longest_first P [] h = tt
All-longest_first P (e ∷ es) (p, h) =
    All-insert_by_length P e (longest_first es) p (All-longest_first P es h)

insert_by_length-IsSorted :
    (e : PathLimit) (es : List PathLimit) → IsSorted es → IsSorted (insert_by_length e es)
unfolding insert_by_length
insert_by_length-IsSorted e [] h = (tt, tt)
insert_by_length-IsSorted e (x ∷ es) (p, h) =
    elim (Bool-cases (leb (length x.prefix) (length e.prefix))) [
      | inl le ↦ rw le ((ground arith, All-map (λ f q. ground arith) es p), (p, h))
      | inr gt ↦
          rw gt (All-insert_by_length _ e es (ground arith) p, insert_by_length-IsSorted e es h)
    ]

longest_first-IsSorted : (es : List PathLimit) → IsSorted (longest_first es)
unfolding longest_first
longest_first-IsSorted [] = tt
longest_first-IsSorted (e ∷ es) =
    insert_by_length-IsSorted e (longest_first es) (longest_first-IsSorted es)

-- The first entry of a sorted list that passes the test is as long as any that passes it.
first_that-IsLongest :
    (p : PathLimit → Bool) (es : List PathLimit) (e : PathLimit)
    → IsSorted es
    → first_that p es ≡ some e
    → (p e ≡ true) × All (λ f. p f ≡ true → length f.prefix ≤ length e.prefix) es
unfolding first_that
first_that-IsLongest p [] e s h = cc
first_that-IsLongest p (x ∷ es) e (l, s) h = elim (Bool-cases (p x)) [
  | inl t ↦
      let same : x ≡ e = ground arith in
      subst (λ d. (p d ≡ true) × All (λ f. p f ≡ true → length f.prefix ≤ length d.prefix) (x ∷ es))
        same (t, ((λ _. le_refl _), All-map (λ f q _. q) es l))
  | inr t ↦
      let later : first_that p es ≡ some e = rw t at h in
      let (pe, longest) = first_that-IsLongest p es e s later in
      (pe, ((λ q. absurd (grind arith)), longest))
]

first_that-none :
    (p : PathLimit → Bool) (es : List PathLimit)
    → first_that p es ≡ none
    → All (λ f. p f ≡ false) es
unfolding first_that
first_that-none p [] h = tt
first_that-none p (x ∷ es) h = ground (arith, first_that-none p es)

first_that-All :
    (p : PathLimit → Bool) (P : PathLimit → Type 0) (es : List PathLimit) (e : PathLimit)
    → first_that p es ≡ some e
    → All P es
    → P e
unfolding first_that
first_that-All p P [] e h a = cc
first_that-All p P (x ∷ es) e h (q, a) = elim (Bool-cases (p x)) [
  | inl t ↦ let same : x ≡ e = ground arith in rw same at q
  | inr t ↦ first_that-All p P es e (rw t at h) a
]

module _ (upper : Text → Text) (paths : List PathLimit) (path method : Text) where
  -- The entry covers the request: its prefix begins the path, and its methods hold the method.
  abbrev pub Covers : PathLimit → Type 0
  Covers e = (starts_with path e.prefix ≡ true) × (entry_applies_to_method upper e method ≡ true)

  pub matched_prefix-IsLongest :
      (e : PathLimit)
      → matched_prefix upper paths path method ≡ some e
      → In e paths
        × Covers e
        × ((f : PathLimit) → In f paths → Covers f → length f.prefix ≤ length e.prefix)
  unfolding matched_prefix
  matched_prefix-IsLongest e h =
      let es = keep_if (λ f. starts_with path f.prefix) paths in
      let test = λ (f : PathLimit). entry_applies_to_method upper f method in
      let (applies, longest) =
        first_that-IsLongest test (longest_first es) e (longest_first-IsSorted es) h in
      let member : In e es =
        first_that-All test (λ f. In f es) (longest_first es) e h
          (All-longest_first (λ f. In f es) es (All-of_In _ es (λ a i. i))) in
      let (known, starts) = In-keep_if (λ f. starts_with path f.prefix) paths member in
      (
        known,
        (starts, applies),
        λ f i c.
            All-In _ es (All-longest_first_inv _ es longest)
              (In-self_keep_if (λ g. starts_with path g.prefix) paths i c.0) c.1,
      )

  matched_prefix-uncovered :
      matched_prefix upper paths path method ≡ none → (f : PathLimit) → In f paths → Covers f → ⊥
  unfolding matched_prefix
  matched_prefix-uncovered h f i c =
      let es = keep_if (λ f. starts_with path f.prefix) paths in
      let no : entry_applies_to_method upper f method ≡ false =
        All-In (λ g. entry_applies_to_method upper g method ≡ false) es
          (All-longest_first_inv _ es (first_that-none _ (longest_first es) h))
          (In-self_keep_if (λ g. starts_with path g.prefix) paths i c.0) in
      cc

  -- No entry is found exactly if none of the configured entries covers the request.
  pub matched_prefix-none :
      (matched_prefix upper paths path method ≡ none)
      ↔ ((f : PathLimit) → In f paths → Covers f → ⊥)
  matched_prefix-none = (
    matched_prefix-uncovered,
    λ uncovered. elim (Option-cases (matched_prefix upper paths path method)) [
      | inl e ↦ e
      | inr (e, found) ↦
          let (member, covers, _) = matched_prefix-IsLongest e found in
          absurd (uncovered e member covers)
    ],
  )
