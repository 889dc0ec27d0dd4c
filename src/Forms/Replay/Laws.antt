-- ===== src/Forms/Replay/Laws.antt =====
-- A replay token that was issued, verified.
use django_waf.Base.{
  ℕ, ◌+◌, ◌≡◌, ◌≢◌, refl, ap, true, false, not, ◌||◌, some, [], ◌∷◌, Text, ltb, if◌then◌else◌,
  is_empty, ◌=ᵗ◌, =ᵗ_refl, split-delimiter, split-NoChar, strip_end, NoChar, rsplit_once-delimiter,
  arith, Bool-cases, inl, inr,
}
use django_waf.Forms.Base64.{Base64Laws, padded-strip_end}
use django_waf.Forms.Tokens.{bar, ◌|+|◌, is_ascii}
use django_waf.Forms.Replay.{
  ReplayCodec, replayable, unavailable, ascii_or_replaced, signed_fields, signed,
  issue_replay_token, verify_replay_token,
}

pub record ReplayLaws (c : ReplayCodec) : Type 0 where
  pub base64 : Base64Laws c.b64encode c.b64decode
  pub hmac-NoChar : (s : Text) → NoChar bar (c.hmac s)
  pub hmac_ascii : (s : Text) → is_ascii (c.hmac s) ≡ true
  pub utf8_round : (s : Text) → c.utf8_decode (c.utf8_encode s) ≡ some s
  pub str-NoChar : (n : ℕ) → NoChar bar (c.str n)
  pub int_round : (n : ℕ) → c.int (c.str n) ≡ some n

ascii_lem : (s : Text) → is_ascii s ≡ true → ascii_or_replaced s ≡ s
ascii_lem [] h = refl
ascii_lem (x ∷ s) h = ground (arith, ascii_lem s)

signed-ne : (a b : Text) → a |+| b ≢ []
signed-ne [] b e = let no : ⊥ = cc in no
signed-ne (x ∷ a) b e = let no : ⊥ = cc in no

empty_lem : (s : Text) → is_empty s ≡ true → s ≡ []
empty_lem [] h = refl
empty_lem (x ∷ s) h = cc

module _ (c : ReplayCodec) (l : ReplayLaws c) where
  stripped-ne : (s : Text) → s ≢ [] → is_empty (strip_end b'=' (c.b64encode s)) ≡ false
  stripped-ne s ne = elim (Bool-cases (is_empty (strip_end b'=' (c.b64encode s)))) [
    | inr h ↦ h
    | inl h ↦
        let nothing : strip_end b'=' (c.b64encode s) ≡ [] = empty_lem _ h in
        let same : [] ≡ c.b64encode s =
          rw nothing at (padded-strip_end c.b64encode c.b64decode l.base64 s) in
        let read : c.b64decode [] ≡ c.b64decode (c.b64encode s) = ap c.b64decode same in
        let first : c.b64decode [] ≡ some [] = l.base64.b64_empty in
        let second : c.b64decode (c.b64encode s) ≡ some s = l.base64.b64_round s in
        let none_left : s ≡ [] = cc in absurd (ne none_left)
  ]

  -- A replay token that was issued for a form, an address and a session's record is replayable for
  -- exactly sixty seconds and exactly from that address; provided that none of the three has a "|".
  pub verify-issue_replay :
      (form_id ip session_key current_ip : Text) (issued now : ℕ)
      → NoChar bar form_id
      → NoChar bar ip
      → NoChar bar session_key
      → verify_replay_token c current_ip now (issue_replay_token c form_id ip session_key issued)
        ≡ (if ltb (issued + 60) now || not (ip =ᵗ current_ip)
            then unavailable
            else replayable (record { form_id = form_id; session_key = session_key }))
  unfolding verify_replay_token issue_replay_token
  verify-issue_replay form_id ip session_key current_ip issued now hf hi hs =
      let plain : Text = signed_fields c form_id ip session_key (issued + 60) in
      let payload : Text = c.utf8_encode plain in
      simp
        (
          stripped-ne (signed c payload) (signed-ne payload (c.hmac payload)),
          padded-strip_end c.b64encode c.b64decode l.base64 (signed c payload),
          l.base64.b64_round (signed c payload),
          rsplit_once-delimiter bar payload (c.hmac payload) (l.hmac-NoChar payload),
          ascii_lem (c.hmac payload) (l.hmac_ascii payload),
          l.hmac_ascii payload,
          =ᵗ_refl (c.hmac payload),
          l.utf8_round plain,
          split-delimiter bar form_id (ip |+| session_key |+| c.str (issued + 60)) hf,
          split-delimiter bar ip (session_key |+| c.str (issued + 60)) hi,
          split-delimiter bar session_key (c.str (issued + 60)) hs,
          split-NoChar bar (c.str (issued + 60)) (l.str-NoChar (issued + 60)),
          l.int_round (issued + 60),
        )
        (ground arith)
