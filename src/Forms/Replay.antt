-- ===== src/Forms/Replay.antt =====
-- forms/services/replay.py: the signed replay token and the stash of submissions in the session.
--
-- A text stands for bytes too, by their values. `ReplayCodec` holds what the module takes from hmac
-- with the package's signing key, from base64, and from the methods of `str`, `bytes` and `int`.
-- `int` is `none` for a negative number as well: an expiry in the past is refused either way. Times
-- are whole seconds.
pub mod Stash
pub mod Laws
pub mod Sound
use django_waf.Base.{
  ℕ, ◌+◌, ◌-◌, ◌%◌, Bool, true, false, not, ◌&&◌, ◌||◌, Option, none, some, List, [], ◌∷◌, ◌++◌,
  Text, text, ltb, leb, ◌==◌, if◌then◌else◌, is_empty, ◌=ᵗ◌, any, map, keep_if, has_substring,
  split, strip_end, repeat, length, rsplit_once, lookup,
}
use django_waf.Forms.Base64.{padded}
use django_waf.Forms.Tokens.{bar, ◌|+|◌, is_ascii}

-- A letter as a caseless pattern reads it: the dotted and dotless i, the long s and the Kelvin sign
-- match too.
fold_case : ℕ → ℕ
fold_case ch =
    if leb b'A' ch && leb ch b'Z'
    then ch + 32
    else if ch == 304 || ch == 305
    then b'i'
    else if ch == 383
    then b's'
    else if ch == 8490
    then b'k'
    else ch

-- The alternatives of `_SENSITIVE_FIELD_RE`; what may follow "pass" does not matter to a search.
abbrev sensitive_words : List Text
sensitive_words =
    text "pass"
    ∷ text "secret"
    ∷ text "apikey"
    ∷ text "api_key"
    ∷ text "api-key"
    ∷ text "csrf"
    ∷ text "token"
    ∷ []

unfoldable pub is_sensitive_field : Text → Bool
unfolding fold_case
is_sensitive_field name = any (λ word. has_substring word (map fold_case name)) sensitive_words

unfoldable pub filter_sensitive_fields : List (Text × Text) → List (Text × Text)
filter_sensitive_fields fields = keep_if (λ entry. not (is_sensitive_field entry.0)) fields

pub record ReplayCodec : Type 0 where
  pub hmac : Text → Text
  pub b64encode : Text → Text
  pub b64decode : Text → Option Text
  pub utf8_encode : Text → Text
  pub utf8_decode : Text → Option Text
  pub str : ℕ → Text
  pub int : Text → Option ℕ

pub record ReplayPayload : Type 0 where
  pub form_id : Text
  pub session_key : Text

-- The payload, `None`, or the TypeError of a comparison that is not caught.
pub data ReplayCheck : Type 0 where
  replayable : ReplayPayload → ReplayCheck
  unavailable type_error : ReplayCheck

-- `bytes.decode("ascii", errors="replace")`
abbrev ascii_or_replaced : Text → Text
ascii_or_replaced bytes = map (λ b. if ltb b 128 then b else 65533) bytes

module _ (c : ReplayCodec) where
  abbrev pub signed_fields : Text → Text → Text → ℕ → Text
  signed_fields form_id ip session_key expires_at =
      form_id |+| ip |+| session_key |+| c.str expires_at

  abbrev pub signed : Text → Text
  signed payload = payload |+| c.hmac payload

  unfoldable pub issue_replay_token : Text → Text → Text → ℕ → Text
  issue_replay_token form_id ip session_key now =
      strip_end b'='
        (c.b64encode (signed (c.utf8_encode (signed_fields form_id ip session_key (now + 60)))))

  module _ (current_ip : Text) (now : ℕ) where
    check_expiry : Text → Text → Text → Option ℕ → ReplayCheck
    check_expiry form_id ip session_key none = unavailable
    check_expiry form_id ip session_key (some expires_at) =
        if ltb expires_at now
        then unavailable
        else if not (ip =ᵗ current_ip)
        then unavailable
        else replayable (record { form_id = form_id; session_key = session_key })

    -- Exactly four fields.
    check_parts : List Text → ReplayCheck
    check_parts (form_id ∷ ip ∷ session_key ∷ expires_at_str ∷ []) =
        check_expiry form_id ip session_key (c.int expires_at_str)
    check_parts _ = unavailable

    check_payload : Option Text → ReplayCheck
    check_payload none = unavailable
    check_payload (some payload) = check_parts (split bar payload)

    check_signature : Text → Text → ReplayCheck
    check_signature payload sig =
        if not (is_ascii (ascii_or_replaced sig))
        then type_error
        else if not (c.hmac payload =ᵗ ascii_or_replaced sig)
        then unavailable
        else check_payload (c.utf8_decode payload)

    check_split : Option (Text × Text) → ReplayCheck
    check_split none = unavailable
    check_split (some (payload, sig)) = check_signature payload sig

    check_raw : Option Text → ReplayCheck
    check_raw none = unavailable
    check_raw (some raw) = check_split (rsplit_once bar raw)

    unfoldable pub verify_replay_token : Text → ReplayCheck
    unfolding check_expiry check_parts check_payload check_signature check_split check_raw
    verify_replay_token token =
        if is_empty token then unavailable else check_raw (c.b64decode (padded token))
