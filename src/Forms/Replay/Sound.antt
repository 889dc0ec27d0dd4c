-- ===== src/Forms/Replay/Sound.antt =====
-- What a replay token that verifies must be.
use django_waf.Base.{
  ℕ, ◌≤◌, ◌≡◌, refl, ap, true, Option, none, some, List, [], ◌∷◌, Text, ltb, is_empty, ◌=ᵗ◌, =ᵗ_iff,
  split, rsplit_once, rsplit_once-eq_some, ltb_false→le, arith, Bool-cases, inl, inr,
}
use django_waf.Forms.Base64.{padded}
use django_waf.Forms.Tokens.{bar, is_ascii}
use django_waf.Forms.Replay.{
  ReplayCodec, ReplayPayload, replayable, ascii_or_replaced, signed, check_expiry, check_parts,
  check_payload, check_signature, check_split, check_raw, verify_replay_token,
}

-- No replacement character is ASCII, so what is ASCII afterwards was not replaced.
replaced_lem : (s : Text) → is_ascii (ascii_or_replaced s) ≡ true → ascii_or_replaced s ≡ s
replaced_lem [] h = refl
replaced_lem (x ∷ s) h = ground (arith, replaced_lem s)

module _ (c : ReplayCodec) (current_ip : Text) (now : ℕ) where
  -- What stands behind a token that verifies: the signed bytes, their text, and its four fields.
  pub Behind : Text → ReplayPayload → Type 0
  Behind token p =
      (payload : Text) × (plain : Text) × (expiry : Text) × (expires_at : ℕ) × (c.b64decode
          (padded token)
        ≡ some (signed c payload))
      × (c.utf8_decode payload ≡ some plain)
      × (split bar plain ≡ p.form_id ∷ current_ip ∷ p.session_key ∷ expiry ∷ [])
      × (c.int expiry ≡ some expires_at)
      × (now ≤ expires_at)

  expiry_lem :
      (form_id ip session_key : Text) (o : Option ℕ) (p : ReplayPayload)
      → check_expiry c current_ip now form_id ip session_key o ≡ replayable p
      → (expires_at : ℕ) × (o ≡ some expires_at)
        × (now ≤ expires_at)
        × (ip ≡ current_ip)
        × (form_id ≡ p.form_id)
        × (session_key ≡ p.session_key)
  unfolding check_expiry
  expiry_lem form_id ip session_key none p e = absurd (let no : ⊥ = cc in no)
  expiry_lem form_id ip session_key (some expires_at) p e = elim (Bool-cases (ltb expires_at now)) [
    | inl h ↦ absurd (let no : ⊥ = cc (rw h at e) in no)
    | inr h ↦ elim (Bool-cases (ip =ᵗ current_ip)) [
      | inr h' ↦ absurd (let no : ⊥ = cc (rw (h, h') at e) in no)
      | inl h' ↦
          let same : record { form_id = form_id; session_key = session_key } ≡ p =
            cc (rw (h, h') at e) in
          (
            expires_at,
            refl,
            ltb_false→le expires_at now h,
            (=ᵗ_iff ip current_ip).0 h',
            ap (λ q. q.form_id) same,
            ap (λ q. q.session_key) same,
          )
    ]
  ]

  parts_lem :
      (parts : List Text) (p : ReplayPayload)
      → check_parts c current_ip now parts ≡ replayable p
      → (expiry : Text) × (expires_at : ℕ) × (parts
          ≡ p.form_id ∷ current_ip ∷ p.session_key ∷ expiry ∷ [])
        × (c.int expiry ≡ some expires_at)
        × (now ≤ expires_at)
  unfolding check_parts
  parts_lem (form_id ∷ ip ∷ session_key ∷ expiry ∷ []) p e =
      let (expires_at, read, lasts, same_ip, same_form, same_key) =
        expiry_lem form_id ip session_key (c.int expiry) p e in
      (expiry, expires_at, rw (same_ip, same_form, same_key) refl, read, lasts)
  parts_lem [] p e = absurd (let no : ⊥ = cc in no)
  parts_lem (_ ∷ []) p e = absurd (let no : ⊥ = cc in no)
  parts_lem (_ ∷ _ ∷ []) p e = absurd (let no : ⊥ = cc in no)
  parts_lem (_ ∷ _ ∷ _ ∷ []) p e = absurd (let no : ⊥ = cc in no)
  parts_lem (_ ∷ _ ∷ _ ∷ _ ∷ _ ∷ _) p e = absurd (let no : ⊥ = cc in no)

  -- The part of `Behind` from the payload on.
  abbrev Read : Text → ReplayPayload → Type 0
  Read payload p =
      (plain : Text) × (expiry : Text) × (expires_at : ℕ) × (c.utf8_decode payload ≡ some plain)
      × (split bar plain ≡ p.form_id ∷ current_ip ∷ p.session_key ∷ expiry ∷ [])
      × (c.int expiry ≡ some expires_at)
      × (now ≤ expires_at)

  payload_lem :
      (payload : Text) (o : Option Text) (p : ReplayPayload)
      → c.utf8_decode payload ≡ o
      → check_payload c current_ip now o ≡ replayable p
      → Read payload p
  unfolding check_payload
  payload_lem payload none p h e = absurd (let no : ⊥ = cc in no)
  payload_lem payload (some plain) p h e =
      let (expiry, expires_at, parts, read, lasts) = parts_lem (split bar plain) p e in
      (plain, expiry, expires_at, h, parts, read, lasts)

  signature_lem :
      (payload sig : Text) (p : ReplayPayload)
      → check_signature c current_ip now payload sig ≡ replayable p
      → (c.hmac payload ≡ ascii_or_replaced sig)
        × (is_ascii (ascii_or_replaced sig) ≡ true)
        × Read payload p
  unfolding check_signature
  signature_lem payload sig p e = elim (Bool-cases (is_ascii (ascii_or_replaced sig))) [
    | inr h ↦ absurd (let no : ⊥ = cc (rw h at e) in no)
    | inl h ↦ elim (Bool-cases (c.hmac payload =ᵗ ascii_or_replaced sig)) [
      | inr h' ↦ absurd (let no : ⊥ = cc (rw (h, h') at e) in no)
      | inl h' ↦ (
        (=ᵗ_iff (c.hmac payload) (ascii_or_replaced sig)).0 h',
        h,
        payload_lem payload (c.utf8_decode payload) p refl (rw (h, h') at e),
      )
    ]
  ]

  split_lem :
      (raw : Text) (o : Option (Text × Text)) (p : ReplayPayload)
      → rsplit_once bar raw ≡ o
      → check_split c current_ip now o ≡ replayable p
      → (payload : Text) × (raw ≡ signed c payload) × Read payload p
  unfolding check_split
  split_lem raw none p h e = absurd (let no : ⊥ = cc in no)
  split_lem raw (some (payload, sig)) p h e =
      let (same, ascii, read) = signature_lem payload sig p e in
      (payload, rw (same, replaced_lem sig ascii) (rsplit_once-eq_some bar raw payload sig h), read)

  raw_lem :
      (token : Text) (o : Option Text) (p : ReplayPayload)
      → c.b64decode (padded token) ≡ o
      → check_raw c current_ip now o ≡ replayable p
      → Behind token p
  unfolding check_raw Behind
  raw_lem token none p h e = absurd (let no : ⊥ = cc in no)
  raw_lem token (some raw) p h e =
      let (payload, same, rest) = split_lem raw (rsplit_once bar raw) p refl e in
      let (plain, expiry, expires_at, text_is, parts, read, lasts) = rest in
      (payload, plain, expiry, expires_at, rw (h, same) refl, text_is, parts, read, lasts)

  -- A replay token that verifies decodes to a payload, a "|" and the payload's HMAC; the payload is
  -- the text of exactly four fields, the form's id, the address of the present request, the session
  -- record's key and an expiry that is not past.
  pub verify_replay_sound :
      (token : Text) (p : ReplayPayload)
      → verify_replay_token c current_ip now token ≡ replayable p
      → Behind token p
  unfolding verify_replay_token
  verify_replay_sound token p e = elim (Bool-cases (is_empty token)) [
    | inl h ↦ absurd (let no : ⊥ = cc (rw h at e) in no)
    | inr h ↦ raw_lem token (c.b64decode (padded token)) p refl (rw h at e)
  ]
