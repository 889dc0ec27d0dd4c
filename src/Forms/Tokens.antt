-- ===== src/Forms/Tokens.antt =====
-- forms/services/tokens.py: the signed render token of a form.
--
-- `Codec` holds what the module takes from hmac, hashlib, base64 and datetime: `b64encode` is
-- `urlsafe_b64encode` of the text's UTF-8, `b64decode` gives the text back, and is `none` where
-- one of the two decodings or the encoding to ASCII raises a ValueError. An instant is microseconds
-- since the epoch; `fromisoformat` reads a time without zone as UTC, as its users do.
pub mod Laws
use django_waf.Forms.Base64.{padded}
use django_waf.Base.{
  ℕ, ◌-◌, ◌%◌, Bool, true, false, not, Option, none, some, List, [], ◌∷◌, ◌++◌, Text, text, ltb,
  if◌then◌else◌, all, is_empty, ◌=ᵗ◌, split, strip_end, repeat, length, rsplit_once,
}

pub record Codec : Type 0 where
  -- the hexadecimal HMAC-SHA256, of a key and a message
  pub hmac : Text → Text → Text
  pub sha256 : Text → Text
  pub sha256_hex : Text → Text
  pub isoformat : ℕ → Text
  pub fromisoformat : Text → Option ℕ
  pub b64encode : Text → Text
  pub b64decode : Text → Option Text

pub record KeyConf : Type 0 where
  pub signing_key : Text
  pub secret_key : Text

pub get_signing_key : Codec → KeyConf → Text
get_signing_key c conf =
    if not (is_empty conf.signing_key)
    then conf.signing_key
    else c.sha256 (text "django-waf:signing:v1|" ++ conf.secret_key)

pub record TokenPayload : Type 0 where
  pub form_id : Text
  pub ip : Text
  pub user_id : Text
  pub render_time : ℕ
  pub nonce : Text
  pub ua_hash : Text

abbrev pub bar : ℕ
bar = b'|'

infixr 50 ◌|+|◌
abbrev pub ◌|+|◌ : Text → Text → Text
a |+| b = a ++ bar ∷ b

-- `compare_digest` of two `str` raises a TypeError unless both are ASCII.
abbrev pub is_ascii : Text → Bool
is_ascii = all (λ c. ltb c 128)

pub data Verified (A : Type 0) : Type 0 where
  verified : A → Verified A
  value_error : Verified A
  type_error : Verified A

module _ (c : Codec) where
  unfoldable pub encode : TokenPayload → Text
  encode p =
      p.form_id |+| p.ip |+| p.user_id |+| c.isoformat p.render_time |+| p.nonce |+| p.ua_hash

  decode_time : Text → Text → Text → Text → Text → Option ℕ → Option TokenPayload
  decode_time form_id ip user_id nonce ua_hash none = none
  decode_time form_id ip user_id nonce ua_hash (some render_time) = some (record {
    form_id = form_id;
    ip = ip;
    user_id = user_id;
    render_time = render_time;
    nonce = nonce;
    ua_hash = ua_hash;
  })

  -- Exactly six fields.
  decode_parts : List Text → Option TokenPayload
  decode_parts (form_id ∷ ip ∷ user_id ∷ render_time_iso ∷ nonce ∷ ua_hash ∷ []) =
      decode_time form_id ip user_id nonce ua_hash (c.fromisoformat render_time_iso)
  decode_parts _ = none

  unfoldable pub decode : Text → Option TokenPayload
  unfolding decode_time decode_parts
  decode raw = decode_parts (split bar raw)

  abbrev pub hash_user_agent : Text → Text
  hash_user_agent user_agent = c.sha256_hex user_agent

  -- `payload_str`, the delimiter and the signature, in base64 without its padding.
  unfoldable pub signed_token : Text → Text → Text
  signed_token key payload_str =
      strip_end b'=' (c.b64encode (payload_str |+| c.hmac key payload_str))

  -- `nonce` is the random one or the caller's, `render_time` the clock's or the caller's.
  unfoldable pub issue_token :
      Text → (form_id ip user_id user_agent nonce : Text) → ℕ → Text × TokenPayload
  issue_token key form_id ip user_id user_agent nonce render_time =
      let payload : TokenPayload = record {
        form_id = form_id;
        ip = ip;
        user_id = user_id;
        render_time = render_time;
        nonce = nonce;
        ua_hash = hash_user_agent user_agent;
      } in
      (signed_token key (encode payload), payload)

  read_payload : Option TokenPayload → Verified TokenPayload
  read_payload none = value_error
  read_payload (some payload) = verified payload

  check_signature : Text → Text → Text → Verified TokenPayload
  check_signature key payload_str signature =
      if not (is_ascii signature)
      then type_error
      else if not (c.hmac key payload_str =ᵗ signature)
      then value_error
      else read_payload (decode payload_str)

  check_split : Text → Option (Text × Text) → Verified TokenPayload
  check_split key none = value_error
  check_split key (some (payload_str, signature)) = check_signature key payload_str signature

  check_raw : Text → Option Text → Verified TokenPayload
  check_raw key none = value_error
  check_raw key (some raw) = check_split key (rsplit_once bar raw)

  unfoldable pub verify_token : Text → Text → Verified TokenPayload
  unfolding read_payload check_signature check_split check_raw
  verify_token key token = check_raw key (c.b64decode (padded token))
