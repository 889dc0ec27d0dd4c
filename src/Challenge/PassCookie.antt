-- ===== src/Challenge/PassCookie.antt =====
-- services/challenge_service.py: the `waf_pass` cookie.
--
-- `sign` is HMAC-SHA256 under the site's secret, in hexadecimal; `canonical` is the compressed form
-- of an address, or `none` for what the ipaddress module refuses; `show` and `read` are `str` and
-- `int`, where `read` gives `none` for what `int` refuses and for a negative number, which is
-- rejected as expired.
pub mod Laws
use django_waf.Base.{
  ℕ, ◌+◌, ◌*◌, ◌/◌, Bool, true, false, not, Option, none, some, ◌∷◌, ◌++◌, Text, text, ltb,
  if◌then◌else◌, ◌=ᵗ◌, get_or, rsplit_once, partition,
}
use django_waf.RateLimiter.{second}

abbrev pub delimiter : ℕ
delimiter = b'|'

abbrev pub version : Text
version = text "v2"

infixr 66 ◌|||◌
abbrev pub ◌|||◌ : Text → Text → Text
a ||| b = a ++ delimiter ∷ b

pub record Fields : Type 0 where
  pub version : Text
  pub token : Text
  pub ip : Text
  pub expiry : Text

-- `value_prefix.split("|", 3)`, unpacked into four names.
abbrev last_two : Text → Text → Option (Text × Text) → Option Fields
last_two v t none = none
last_two v t (some (i, e)) = some (record { version = v; token = t; ip = i; expiry = e })

abbrev last_three : Text → Option (Text × Text) → Option Fields
last_three v none = none
last_three v (some (t, rest)) = last_two v t (partition delimiter rest)

abbrev all_four : Option (Text × Text) → Option Fields
all_four none = none
all_four (some (v, rest)) = last_three v (partition delimiter rest)

unfoldable pub split_fields : Text → Option Fields
split_fields value_prefix = all_four (partition delimiter value_prefix)

-- `_normalise_ip`: what cannot be parsed is left as it is.
unfoldable pub normalise_ip : (Text → Option Text) → Text → Text
normalise_ip canonical ip = get_or (canonical ip) ip

abbrev pub value_prefix : (ℕ → Text) → Text → Text → ℕ → Text
value_prefix show token ip expiry_ts = version ||| token ||| ip ||| show expiry_ts

is_unexpired : Option ℕ → ℕ → Bool
is_unexpired none now = false
is_unexpired (some expiry_ts) now = not (ltb (expiry_ts * second) now)

module _ (sign : Text → Text) (canonical : Text → Option Text) where
  -- The value of the cookie that is set, with its life in seconds.
  unfoldable pub issue_pass_cookie : (ℕ → Text) → Text → Text → ℕ → ℕ → Text
  issue_pass_cookie show token ip ttl now =
      let prefix = value_prefix show token (normalise_ip canonical ip) (now / second + ttl) in
      prefix ||| sign prefix

  module _ (read : Text → Option ℕ) where
    fields_hold : Option Fields → Text → ℕ → Bool
    fields_hold none ip now = false
    fields_hold (some f) ip now =
        if not (f.version =ᵗ version)
        then false
        else if not (is_unexpired (read f.expiry) now)
        then false
        else f.ip =ᵗ normalise_ip canonical ip

    signed_holds : Option (Text × Text) → Text → ℕ → Bool
    signed_holds none ip now = false
    signed_holds (some (prefix, signature)) ip now =
        if not (sign prefix =ᵗ signature) then false else fields_hold (split_fields prefix) ip now

    unfoldable pub validate_pass_cookie : Text → Text → ℕ → Bool
    unfolding signed_holds fields_hold is_unexpired
    validate_pass_cookie cookie_value ip now =
        signed_holds (rsplit_once delimiter cookie_value) ip now
