-- ===== src/Forms/Tokens/Laws.antt =====
-- A token that was issued, verified; and what a token that verifies must be.
use django_waf.Base.{
  ℕ, ◌≡◌, ◌↔◌, refl, true, false, Option, none, some, Text, ◌=ᵗ◌, =ᵗ_refl, =ᵗ_iff, split-delimiter,
  split-NoChar, rsplit_once, NoChar, rsplit_once-delimiter, rsplit_once-eq_some, arith, Bool-cases,
  inl, inr,
}
use django_waf.Forms.Base64.{Base64Laws, padded, padded-strip_end}
use django_waf.Forms.Tokens.{
  Codec, TokenPayload, bar, ◌|+|◌, is_ascii, verified, type_error, encode, decode, signed_token,
  issue_token, read_payload, check_signature, check_split, check_raw, verify_token,
}

-- The documented behaviour of base64, hmac, hashlib and datetime: digests are ASCII without the
-- delimiter, and a time that is written is read back.
pub record CodecLaws (c : Codec) : Type 0 where
  pub base64 : Base64Laws c.b64encode c.b64decode
  pub hmac-NoChar : (key s : Text) → NoChar bar (c.hmac key s)
  pub hmac_ascii : (key s : Text) → is_ascii (c.hmac key s) ≡ true
  pub sha256-NoChar : (s : Text) → NoChar bar (c.sha256_hex s)
  pub isoformat-NoChar : (t : ℕ) → NoChar bar (c.isoformat t)
  pub iso_round : (t : ℕ) → c.fromisoformat (c.isoformat t) ≡ some t

module _ (c : Codec) (l : CodecLaws c) where
  decode-encode :
      (p : TokenPayload)
      → NoChar bar p.form_id
      → NoChar bar p.ip
      → NoChar bar p.user_id
      → NoChar bar p.nonce
      → NoChar bar p.ua_hash
      → decode c (encode c p) ≡ some p
  unfolding decode encode
  decode-encode p hf hi hu hn hh = simp (
    split-delimiter bar p.form_id
        (p.ip |+| p.user_id |+| c.isoformat p.render_time |+| p.nonce |+| p.ua_hash) hf,
    split-delimiter bar p.ip (p.user_id |+| c.isoformat p.render_time |+| p.nonce |+| p.ua_hash) hi,
    split-delimiter bar p.user_id (c.isoformat p.render_time |+| p.nonce |+| p.ua_hash) hu,
    split-delimiter bar (c.isoformat p.render_time) (p.nonce |+| p.ua_hash)
        (l.isoformat-NoChar p.render_time),
    split-delimiter bar p.nonce p.ua_hash hn,
    split-NoChar bar p.ua_hash hh,
    l.iso_round p.render_time,
  )

  verify-signed :
      (key payload_str : Text)
      → verify_token c key (signed_token c key payload_str) ≡ read_payload c (decode c payload_str)
  unfolding verify_token signed_token
  verify-signed key payload_str = simp (
    padded-strip_end c.b64encode c.b64decode l.base64 (payload_str |+| c.hmac key payload_str),
    l.base64.b64_round (payload_str |+| c.hmac key payload_str),
    rsplit_once-delimiter bar payload_str (c.hmac key payload_str) (l.hmac-NoChar key payload_str),
    l.hmac_ascii key payload_str,
    =ᵗ_refl (c.hmac key payload_str),
  )

  -- The token that is issued for a form verifies, under the same key, to the payload that was
  -- issued, if the form's id, the address, the user's id and the nonce have no "|".
  pub verify-issue :
      (key form_id ip user_id user_agent nonce : Text) (render_time : ℕ)
      → NoChar bar form_id
      → NoChar bar ip
      → NoChar bar user_id
      → NoChar bar nonce
      → verify_token c key (issue_token c key form_id ip user_id user_agent nonce render_time).0
        ≡ verified (issue_token c key form_id ip user_id user_agent nonce render_time).1
  unfolding issue_token read_payload
  verify-issue key form_id ip user_id user_agent nonce render_time hf hi hu hn =
      let p : TokenPayload =
        (issue_token c key form_id ip user_id user_agent nonce render_time).1 in
      rw (verify-signed key (encode c p), decode-encode p hf hi hu hn (l.sha256-NoChar user_agent))
        refl

module _ (c : Codec) (key : Text) where
  -- What a payload string comes with in a token that verifies.
  pub Signs : Text → TokenPayload → Text → Type 0
  Signs token p payload_str =
      (c.b64decode (padded token) ≡ some (payload_str |+| c.hmac key payload_str))
      × (decode c payload_str ≡ some p)

  read_payload_lem :
      (o : Option TokenPayload) (p : TokenPayload) → read_payload c o ≡ verified p → o ≡ some p
  unfolding read_payload
  read_payload_lem none p e = cc
  read_payload_lem (some q) p e = cc

  signature_lem :
      (payload_str signature : Text) (p : TokenPayload)
      → check_signature c key payload_str signature ≡ verified p
      → (c.hmac key payload_str ≡ signature) × (decode c payload_str ≡ some p)
  unfolding check_signature
  signature_lem payload_str signature p e = elim (Bool-cases (is_ascii signature)) [
    | inr h ↦ absurd (let no : ⊥ = cc (rw h at e) in no)
    | inl h ↦ elim (Bool-cases (c.hmac key payload_str =ᵗ signature)) [
      | inr h' ↦ absurd (let no : ⊥ = cc (rw (h, h') at e) in no)
      | inl h' ↦ (
        (=ᵗ_iff (c.hmac key payload_str) signature).0 h',
        read_payload_lem (decode c payload_str) p (rw (h, h') at e),
      )
    ]
  ]

  split_lem :
      (raw : Text) (o : Option (Text × Text)) (p : TokenPayload)
      → rsplit_once bar raw ≡ o
      → check_split c key o ≡ verified p
      → (s : Text) × (raw ≡ s |+| c.hmac key s) × (decode c s ≡ some p)
  unfolding check_split
  split_lem raw none p h e = absurd (let no : ⊥ = cc in no)
  split_lem raw (some (s, signature)) p h e =
      let (same, read) = signature_lem s signature p e in
      (s, rw same (rsplit_once-eq_some bar raw s signature h), read)

  raw_lem :
      (token : Text) (o : Option Text) (p : TokenPayload)
      → c.b64decode (padded token) ≡ o
      → check_raw c key o ≡ verified p
      → (s : Text) × Signs token p s
  unfolding check_raw Signs
  raw_lem token none p h e = absurd (let no : ⊥ = cc in no)
  raw_lem token (some raw) p h e =
      let (s, same, read) = split_lem raw (rsplit_once bar raw) p refl e in
      (s, (rw h (rw (← same) refl), read))

  -- A token that verifies decodes to a payload string, a "|" and the HMAC of exactly that string
  -- under the key; and the payload that is returned is what the string decodes to.
  pub verify_sound :
      (token : Text) (p : TokenPayload)
      → verify_token c key token ≡ verified p
      → (s : Text) × Signs token p s
  unfolding verify_token
  verify_sound token p e = raw_lem token (c.b64decode (padded token)) p refl e

  signature-type_error :
      (s signature : Text)
      → (check_signature c key s signature ≡ type_error) ↔ (is_ascii signature ≡ false)
  unfolding check_signature read_payload
  signature-type_error s signature = ground arith

  -- `verify_token` raises a TypeError, which its callers do not catch, exactly if the text decodes
  -- and what follows its last "|" is not all ASCII.
  pub verify-type_error :
      (token raw s signature : Text)
      → c.b64decode (padded token) ≡ some raw
      → rsplit_once bar raw ≡ some (s, signature)
      → (verify_token c key token ≡ type_error) ↔ (is_ascii signature ≡ false)
  unfolding verify_token check_raw check_split
  verify-type_error token raw s signature h k = rw (h, k) (signature-type_error s signature)
