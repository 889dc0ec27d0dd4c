-- ===== src/Examples/Forms.antt =====
-- Examples for the protection of forms: a codec, a form, an honest submission.
pub mod Tokens
pub mod Chain
pub mod Posts
use django_waf.Base.{
  is_empty, ℕ, ◌+◌, ◌-◌, ◌%◌, ◌≢◌, ◌≡◌, refl, ap, true, false, Option, none, some, List, [], ◌∷◌,
  ◌++◌, Text, text, NoChar, all, not, ◌==◌, map, repeat, strip_end, strip_end_lem, length, arith,
}
use django_waf.Forms.Base64.{Base64Laws}
use django_waf.Forms.Tokens.{
  Codec, TokenPayload, bar, verified, encode, signed_token, issue_token, verify_token,
}
use django_waf.Forms.Tokens.Laws.{CodecLaws, verify-issue}
use django_waf.Forms.Context.{FormRequest, FormConf, Config}
use django_waf.Forms.Defences.{render_token, honeypot, time_trap, js_touch}
use django_waf.Forms.Protection.{FormProtection}

pub free_of : (d : ℕ) (s : Text) → all (λ ch. not (ch == d)) s ≡ true → NoChar d s
free_of d [] h = tt
free_of d (ch ∷ s) h = ground (arith, free_of d s)

pub minus_plus : (n k : ℕ) → n + k - k ≡ n
minus_plus n k = omega arith

pub stripped_empty : strip_end b'=' [] ≡ []
stripped_empty = strip_end_lem b'=' 0 [] tt

-- A base64 of sorts: every character is shifted out of the way of "=".
abbrev pub shift : Text → Text
shift s = map (λ ch. ch + 128) s

abbrev pub encode64 : Text → Text
encode64 s = shift s ++ repeat ((4 - length (shift s) % 4) % 4) b'='

abbrev pub decode64 : Text → Option Text
decode64 t = some (map (λ ch. ch - 128) (strip_end b'=' t))

pub shift-NoChar : (s : Text) → NoChar b'=' (shift s)
shift-NoChar [] = tt
shift-NoChar (ch ∷ s) = (omega arith, shift-NoChar s)

pub unshift_lem : (s : Text) → map (λ ch. ch - 128) (shift s) ≡ s
unshift_lem [] = refl
unshift_lem (ch ∷ s) = ground (arith, unshift_lem s)

pub stripped64 : (s : Text) → strip_end b'=' (encode64 s) ≡ shift s
stripped64 s = strip_end_lem b'=' ((4 - length (shift s) % 4) % 4) (shift s) (shift-NoChar s)

abbrev pub laws64 : Base64Laws encode64 decode64
laws64 = record {
  body = shift;
  tail = λ s. (4 - length (shift s) % 4) % 4;
  b64_shape = λ s. refl;
  body-NoChar = shift-NoChar;
  tail-lt = λ s. omega arith;
  b64_groups = λ s. omega arith;
  b64_round = λ s.
      rw
        (
          strip_end_lem b'=' ((4 - length (shift s) % 4) % 4) (shift s) (shift-NoChar s),
          unshift_lem s,
        )
        refl;
  b64_empty = rw stripped_empty refl;
}

abbrev pub read_time : Text → Option ℕ
read_time [] = none
read_time (ch ∷ s) = some (ch - 200)

abbrev pub codec : Codec
codec = record {
  hmac = λ key s. text "sig";
  sha256 = λ s. 0 ∷ 0 ∷ 0 ∷ 0 ∷ [];
  sha256_hex = λ s. text "h";
  isoformat = λ t. (t + 200) ∷ [];
  fromisoformat = read_time;
  b64encode = encode64;
  b64decode = decode64;
}

abbrev pub codec_laws : CodecLaws codec
codec_laws = record {
  base64 = laws64;
  hmac-NoChar = λ key s. free_of bar (text "sig") refl;
  hmac_ascii = λ key s. refl;
  sha256-NoChar = λ s. (omega arith, tt);
  isoformat-NoChar = λ t. (omega arith, tt);
  iso_round = λ t. ap some (minus_plus t 200);
}

abbrev pub signing_key : Text
signing_key = text "k"

abbrev pub home : Text
home = text "1.2.3.4"

-- Rendered one second after the epoch.
abbrev pub issued : Text × TokenPayload
issued = issue_token codec signing_key (text "contact") home [] (text "ua") (text "n1") 1000000

abbrev pub visitor : FormRequest
visitor = record { ip = home; user_agent = text "ua"; user = none }

abbrev pub no_config : Config
no_config = record {
  token_ttl = none;
  field_names = none;
  min_fill = none;
  max_fill = none;
  ip_limit = none;
  limit = none;
  difficulty = none;
  token_nonce = none;
}

abbrev pub form_conf : FormConf
form_conf = record {
  protection_enabled = true;
  token_ttl = 3600;
  honeypot_field_names = text "url" ∷ text "site" ∷ text "fax" ∷ [];
  time_trap_min = 2000000;
  time_trap_max = 3600000000;
  credential_ip_limit = 20;
  signup_velocity_limit = 3;
  pow_difficulty = 8;
  defence_weights = [];
  block_threshold = 50;
  flag_threshold = 20;
}

abbrev pub contact_form : FormProtection
contact_form = record {
  form_id = text "contact";
  defence_names = render_token ∷ honeypot ∷ time_trap ∷ js_touch ∷ [];
  weights = [];
  skip_for_authenticated = false;
  per_form_config = no_config;
}

abbrev pub sent_fields : List (Text × Text)
sent_fields =
    (text "waf_token", issued.0)
    ∷ (text "waf_js_touch", text "sig")
    ∷ (text "waf_pow_nonce", text "5")
    ∷ (text "message", text "hello")
    ∷ []

-- Eleven seconds after the epoch.
abbrev pub submit_time : ℕ
submit_time = 11000000

pub issued_verifies : verify_token codec signing_key issued.0 ≡ verified issued.1
issued_verifies =
    verify-issue codec codec_laws signing_key (text "contact") home [] (text "ua") (text "n1")
      1000000 (free_of bar (text "contact") refl) (free_of bar home refl) tt
      (free_of bar (text "n1") refl)

pub issued_is_given : is_empty issued.0 ≡ false
unfolding issue_token signed_token encode
issued_is_given = simp stripped64
