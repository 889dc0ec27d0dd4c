-- ===== src/Anomaly/Names.antt =====
-- services/anomaly_detector.py: `_merge_detector_names`, a set of names as one text.
pub mod Laws
use django_waf.Base.{
  ℕ, Bool, true, false, not, ◌&&◌, ◌||◌, ◌≡◌, ◌↔◌, ◌⊎◌, inl, inr, List, [], ◌∷◌, ◌++◌, Text, ◌=ᵗ◌,
  ltb, ◌==◌, if◌then◌else◌, is_empty, keep_if, split,
}

-- `s < t` for texts
abbrev before : Text → Text → Bool
before s [] = false
before [] (y ∷ t) = true
before (x ∷ s) (y ∷ t) = ltb x y || (x == y && before s t)

insert_name : Text → List Text → List Text
insert_name name [] = name ∷ []
insert_name name (first ∷ names) =
    let rest = insert_name name names in
    if name =ᵗ first
    then first ∷ names
    else if before name first
    then name ∷ first ∷ names
    else first ∷ rest

-- `sorted(set(names))`
sorted_names : List Text → List Text
unfolding insert_name
sorted_names [] = []
sorted_names (name ∷ names) = insert_name name (sorted_names names)

-- `",".join(names)`
abbrev join_names : List Text → Text
join_names [] = []
join_names (name ∷ []) = name
join_names (name ∷ second ∷ names) = name ++ b',' ∷ join_names (second ∷ names)

-- `{name for name in value.split(",") if name}`
abbrev pub names_of : Text → List Text
names_of value = keep_if (λ name. not (is_empty name)) (split b',' value)

unfoldable pub merge_detector_names : Text → Text → Text
unfolding sorted_names
merge_detector_names existing_value detector_name = join_names (
    sorted_names (
      if is_empty detector_name
      then names_of existing_value
      else detector_name ∷ names_of existing_value))
