-- ===== src/Challenge/Work.antt =====
-- services/challenge_service.py: the difficulty of a challenge, and the test of a digest.
pub mod LeadingZeros
use Prim.Native.Nat.{bit_and}
use django_waf.Base.{
  ℕ, zero, suc, ◌+◌, ◌-◌, ◌*◌, ◌/◌, ◌%◌, ◌^◌, Bool, true, false, not, ◌||◌, Option, none, some,
  List, [], ◌∷◌, Text, text, ltb, ◌==◌, if◌then◌else◌, length, any, take, has_substring, is_empty,
  get_or,
}

-- `lower` is Python's `str.lower`.
is_mobile_user_agent : (Text → Text) → Text → Bool
is_mobile_user_agent lower user_agent =
    if is_empty user_agent
    then false
    else let ua = lower user_agent in
      has_substring (text "mobi") ua
      || has_substring (text "iphone") ua
      || has_substring (text "ipod") ua

pub record DifficultyConf : Type 0 where
  pub mobile : Option ℕ
  pub desktop : Option ℕ
  pub fallback : ℕ

pub pick_difficulty : (Text → Text) → DifficultyConf → Text → ℕ
unfolding is_mobile_user_agent
pick_difficulty lower conf user_agent =
    get_or (if is_mobile_user_agent lower user_agent then conf.mobile else conf.desktop)
      conf.fallback

-- `digest[i]`, where the code has tested that there is such a byte.
abbrev byte_at : List ℕ → ℕ → ℕ
byte_at [] i = 0
byte_at (b ∷ d) zero = b
byte_at (b ∷ d) (suc i) = byte_at d i

-- `0xFF << (8 - remainder) & 0xFF`
abbrev top_mask : ℕ → ℕ
top_mask remainder = bit_and (255 * 2 ^ (8 - remainder)) 255

-- The test after `divmod(bits, 8)`.
zero_prefix : List ℕ → ℕ → ℕ → Bool
zero_prefix digest full_bytes remainder =
    if ltb (length digest) (full_bytes + (if remainder == 0 then 0 else 1))
    then false
    else if any (λ b. not (b == 0)) (take full_bytes digest)
    then false
    else if remainder == 0
    then true
    else bit_and (byte_at digest full_bytes) (top_mask remainder) == 0

unfoldable pub digest_has_leading_zero_bits : List ℕ → ℕ → Bool
unfolding zero_prefix
digest_has_leading_zero_bits digest bits =
    if bits == 0 then true else zero_prefix digest (bits / 8) (bits % 8)
