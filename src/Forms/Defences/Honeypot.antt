-- ===== src/Forms/Defences/Honeypot.antt =====
-- forms/defences/honeypot.py: the hidden fields of a form, and the test that they are empty.
use django_waf.Base.{
  ℕ, zero, suc, ◌+◌, ◌*◌, ◌%◌, ◌<◌, ◌≡◌, ◌⊎◌, refl, Bool, false, not, List, [], ◌∷◌, ◌++◌, Text,
  text, ltb, if◌then◌else◌, is_empty, length, take, get_or, any, lookup, arith, Bool-cases, inl,
  inr, All, In,
}
use django_waf.Forms.Context.{Outcome, passed, blocked, FormConf, EvaluateContext, is_block}

-- `int.from_bytes(bytes, "big")`, with what came before in `n`.
abbrev big_endian : ℕ → List ℕ → ℕ
big_endian n [] = n
big_endian n (b ∷ bytes) = big_endian (n * 256 + b) bytes

-- `pool[i]`, where the index is in range.
item : List Text → ℕ → Text
item [] i = []
item (name ∷ pool) zero = name
item (name ∷ pool) (suc i) = item pool i

min : ℕ → ℕ → ℕ
min m n = if ltb m n then m else n

-- The names for `i` and the `count - 1` numbers after it.
walk : List Text → ℕ → ℕ → ℕ → List Text
walk pool offset i zero = []
walk pool offset i (suc count) =
    item pool ((offset + i) % length pool) ∷ walk pool offset (suc i) count

module _ (sha256 : Text → Text) where
  unfoldable pub pick_field_names : Text → List Text → ℕ → List Text
  unfolding item min walk
  pick_field_names form_id [] count = []
  pick_field_names form_id (name ∷ names) count =
      let pool : List Text = name ∷ names in
      walk pool (big_endian 0 (take 4 (sha256 form_id)) % length pool) 0 (min count (length pool))

  module _ (conf : FormConf) (ctx : EvaluateContext) where
    abbrev pub honeypot_names : List Text
    honeypot_names =
        pick_field_names ctx.form_id (get_or ctx.config.field_names conf.honeypot_field_names) 2

    abbrev pub is_filled : Text → Bool
    is_filled name = not (is_empty (get_or (lookup name ctx.submitted_data) []))

    check_names : List Text → Outcome
    check_names [] = passed
    check_names (name ∷ names) =
        let rest = check_names names in
        if is_filled name then blocked (text "honeypot:" ++ name) 50 else rest

    unfoldable pub honeypot_evaluate : Outcome
    unfolding check_names
    honeypot_evaluate = check_names honeypot_names

    check_names_lem : (names : List Text) → is_block (check_names names) ≡ any is_filled names
    unfolding check_names
    check_names_lem [] = refl
    check_names_lem (name ∷ names) = ground (arith, check_names_lem names)

    -- The honeypot blocks exactly if one of the form's hidden fields comes back filled.
    pub honeypot_evaluate_lem : is_block honeypot_evaluate ≡ any is_filled honeypot_names
    unfolding honeypot_evaluate
    honeypot_evaluate_lem = check_names_lem honeypot_names

    check_names-passed :
        (names : List Text) → any is_filled names ≡ false → check_names names ≡ passed
    unfolding check_names
    check_names-passed [] h = refl
    check_names-passed (name ∷ names) h = ground (arith, check_names-passed names)

    pub honeypot_passes : any is_filled honeypot_names ≡ false → honeypot_evaluate ≡ passed
    unfolding honeypot_evaluate
    honeypot_passes h = check_names-passed honeypot_names h

    check_names-cases :
        (names : List Text)
        → (check_names names ≡ passed)
          ⊎ ((name : Text) × (check_names names ≡ blocked (text "honeypot:" ++ name) 50))
    unfolding check_names
    check_names-cases [] = inl refl
    check_names-cases (name ∷ names) = elim (Bool-cases (is_filled name)) [
      | inl h ↦ inr (name, rw h refl)
      | inr h ↦ rw h (check_names-cases names)
    ]

    pub honeypot_evaluate-cases :
        (honeypot_evaluate ≡ passed)
        ⊎ ((name : Text) × (honeypot_evaluate ≡ blocked (text "honeypot:" ++ name) 50))
    unfolding honeypot_evaluate
    honeypot_evaluate-cases = check_names-cases honeypot_names

item-In : (pool : List Text) (i : ℕ) → i < length pool → In (item pool i) pool
unfolding item
item-In [] i h = omega arith
item-In (name ∷ pool) zero h = inl refl
item-In (name ∷ pool) (suc i) h = inr (item-In pool i (omega arith))

walk_lem :
    (pool : List Text) (offset i count : ℕ)
    → 0 < length pool
    → (length (walk pool offset i count) ≡ count)
      × All (λ name. In name pool) (walk pool offset i count)
unfolding walk
walk_lem pool offset i zero h = (refl, tt)
walk_lem pool offset i (suc count) h =
    let (n, picked) = walk_lem pool offset (suc i) count h in
    (omega (arith, n), (item-In pool ((offset + i) % length pool) (omega arith), picked))

-- As many names as are asked for, or as the pool has if it has fewer, each of them from the pool.
pub pick_field_names_lem :
    (sha256 : Text → Text) (form_id : Text) (pool : List Text) (count : ℕ)
    → (length (pick_field_names sha256 form_id pool count)
        ≡ (if ltb count (length pool) then count else length pool))
      × All (λ name. In name pool) (pick_field_names sha256 form_id pool count)
unfolding pick_field_names min
pick_field_names_lem sha256 form_id [] count = (ground arith, tt)
pick_field_names_lem sha256 form_id (name ∷ names) count =
    walk_lem (name ∷ names) _ 0 _ (omega arith)
