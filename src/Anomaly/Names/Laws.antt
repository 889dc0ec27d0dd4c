-- ===== src/Anomaly/Names/Laws.antt =====
-- services/anomaly_detector.py: what the merge of detector names keeps.
use django_waf.Base.{
  false, not, ◌≡◌, ap, ◌↔◌, ◌⊎◌, inl, inr, refl, List, [], ◌∷◌, Text, ◌=ᵗ◌, =ᵗ_iff, if◌then◌else◌,
  is_empty, split, split-NoChar, split-delimiter, split-All-NoChar, NoChar, All, All-In, All-of_In,
  In, In-keep_if, Bool-cases, arith,
}
use django_waf.Anomaly.Names.{
  before, insert_name, sorted_names, join_names, names_of, merge_detector_names,
}

abbrev IsName : Text → Type 0
IsName name = NoChar b',' name × (is_empty name ≡ false)

insert_name-All :
    (P : Text → Type 0) (name : Text) (names : List Text)
    → P name
    → All P names
    → All P (insert_name name names)
unfolding insert_name
insert_name-All P name [] p h = (p, tt)
insert_name-All P name (first ∷ names) p (q, h) = elim (Bool-cases (name =ᵗ first)) [
  | inl e ↦ rw e (q, h)
  | inr e ↦ rw e (elim (Bool-cases (before name first)) [
    | inl l ↦ rw l (p, (q, h))
    | inr l ↦ rw l (q, insert_name-All P name names p h)
  ])
]

sorted_names-All :
    (P : Text → Type 0) (names : List Text) → All P names → All P (sorted_names names)
unfolding sorted_names
sorted_names-All P [] h = tt
sorted_names-All P (name ∷ names) (p, h) =
    insert_name-All P name (sorted_names names) p (sorted_names-All P names h)

insert_name-In :
    (a name : Text) (names : List Text) → In a (insert_name name names) ↔ ((a ≡ name) ⊎ In a names)
unfolding insert_name
insert_name-In a name [] = ground arith
insert_name-In a name (first ∷ names) =
    ground (arith, =ᵗ_iff name first, insert_name-In a name names)

sorted_names-In : (a : Text) (names : List Text) → In a (sorted_names names) ↔ In a names
unfolding sorted_names
sorted_names-In a [] = ground arith
sorted_names-In a (name ∷ names) =
    ground (arith, insert_name-In a name (sorted_names names), sorted_names-In a names)

-- A joined list of names is read back.
names_of-join_names : (names : List Text) → All IsName names → names_of (join_names names) ≡ names
names_of-join_names [] h = rw (split-NoChar b',' [] tt) refl
names_of-join_names (name ∷ []) ((n, e), h) = rw (split-NoChar b',' name n) (rw e refl)
names_of-join_names (name ∷ second ∷ names) ((n, e), h) =
    rw (split-delimiter b',' name (join_names (second ∷ names)) n)
      (rw e (ap (λ rest. name ∷ rest) (names_of-join_names (second ∷ names) h)))

names_of-All : (value : Text) → All IsName (names_of value)
names_of-All value = All-of_In IsName (names_of value) (λ name i.
    let (j, e) = In-keep_if (λ x. not (is_empty x)) (split b',' value) i in
    (All-In (NoChar b',') (split b',' value) (split-All-NoChar b',' value) j, ground (arith, e)))

added : Text → List Text → List Text
added detector_name names = if is_empty detector_name then names else detector_name ∷ names

added-All :
    (detector_name : Text) (names : List Text)
    → NoChar b',' detector_name
    → All IsName names
    → All IsName (added detector_name names)
unfolding added
added-All detector_name names n h = elim (Bool-cases (is_empty detector_name)) [
  | inl e ↦ rw e h
  | inr e ↦ rw e ((n, e), h)
]

-- The merged text names exactly the detectors that the text named before and, unless its name is
-- empty, the one that is added; provided that its name has no comma.
pub merge_detector_names_lem :
    (value detector_name a : Text)
    → NoChar b',' detector_name
    → In a (names_of (merge_detector_names value detector_name))
      ↔ (((a ≡ detector_name) × (is_empty detector_name ≡ false)) ⊎ In a (names_of value))
unfolding merge_detector_names added
merge_detector_names_lem value detector_name a n =
    rw
      (names_of-join_names _ (
        sorted_names-All IsName _
          (added-All detector_name (names_of value) n (names_of-All value))))
      (ground (arith, sorted_names-In a (added detector_name (names_of value))))

-- No merge takes a name away.
pub merge_detector_names-keeps :
    (value detector_name a : Text)
    → NoChar b',' detector_name
    → In a (names_of value)
    → In a (names_of (merge_detector_names value detector_name))
merge_detector_names-keeps value detector_name a n i =
    (merge_detector_names_lem value detector_name a n).1 (inr i)

-- The name that is merged is there.
pub merge_detector_names-added :
    (value detector_name : Text)
    → NoChar b',' detector_name
    → is_empty detector_name ≡ false
    → In detector_name (names_of (merge_detector_names value detector_name))
merge_detector_names-added value detector_name n e =
    (merge_detector_names_lem value detector_name detector_name n).1 (inl (refl, e))
