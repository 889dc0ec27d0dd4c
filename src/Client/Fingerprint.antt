-- ===== src/Client/Fingerprint.antt =====
-- services/fingerprint.py. `request.META` is a function to the header's value, "" where the header
-- is absent.
pub mod Laws
use Prim.Native.Nat.{min}
use django_waf.Base.{
  ℕ, ◌+◌, Bool, true, false, not, ◌&&◌, ◌||◌, Option, none, some, List, [], ◌∷◌, ◌++◌, Text, text,
  leb, if◌then◌else◌, is_empty, ◌=ᵗ◌, map, is_some, is_truthy, ◌*◌,
}
use django_waf.Exec.{Exec, pure, try_except, ◌>>=◌, ◌>>◌}
use django_waf.Redis.{Redis}

abbrev pub Meta : Type 0
Meta = Text → Text

-- What `_CHROMIUM_UA_RE` and `_SEC_FETCH_BROWSERS_RE` find: the version behind "Chrome/", and
-- whether the user agent names a browser with a version.
pub record Claims : Type 0 where
  pub chrome_version : Text → Option ℕ
  pub names_browser : Text → Bool

pub data FingerprintVerdict : Type 0 where
  browser bot suspicious unknown : FingerprintVerdict

fingerprint_headers : List Text
fingerprint_headers =
    text "HTTP_ACCEPT"
    ∷ text "HTTP_ACCEPT_LANGUAGE"
    ∷ text "HTTP_ACCEPT_ENCODING"
    ∷ text "HTTP_SEC_CH_UA"
    ∷ text "HTTP_SEC_CH_UA_MOBILE"
    ∷ text "HTTP_SEC_CH_UA_PLATFORM"
    ∷ text "HTTP_SEC_FETCH_SITE"
    ∷ text "HTTP_SEC_FETCH_MODE"
    ∷ text "HTTP_SEC_FETCH_DEST"
    ∷ text "HTTP_SEC_FETCH_USER"
    ∷ text "HTTP_CONNECTION"
    ∷ text "HTTP_UPGRADE_INSECURE_REQUESTS"
    ∷ []

join_bars : List Text → Text
join_bars [] = []
join_bars (part ∷ []) = part
join_bars (part ∷ other ∷ parts) = part ++ b'|' ∷ join_bars (other ∷ parts)

module _ (strip lower hex_sha256 : Text → Text) where
  unfoldable pub compute_fingerprint : Meta → Text
  unfolding fingerprint_headers join_bars
  compute_fingerprint meta =
      hex_sha256 (join_bars (map (λ h. lower (strip (meta h))) fingerprint_headers))

module _ (claims : Claims) (strip : Text → Text) where
  abbrev pub lacks_client_hint : Text → Meta → Bool
  lacks_client_hint user_agent meta = elim (claims.chrome_version user_agent) [
    | none ↦ false
    | some version ↦ leb 89 version && is_empty (meta (text "HTTP_SEC_CH_UA"))
  ]

  abbrev pub lacks_sec_fetch : Meta → Bool
  lacks_sec_fetch meta =
      is_empty (meta (text "HTTP_SEC_FETCH_SITE"))
      && is_empty (meta (text "HTTP_SEC_FETCH_MODE"))
      && is_empty (meta (text "HTTP_SEC_FETCH_DEST"))

  abbrev lacks_language : Meta → Bool
  lacks_language meta =
      let accept_lang = strip (meta (text "HTTP_ACCEPT_LANGUAGE")) in
      is_empty accept_lang || accept_lang =ᵗ text "*"

  abbrev accepts_anything : Meta → Bool
  accepts_anything meta =
      let accept = strip (meta (text "HTTP_ACCEPT")) in accept =ᵗ text "*/*" || is_empty accept

  -- The score of a check that fails.
  abbrev penalty : Bool → ℕ → ℕ
  penalty fails score = if fails then score else 0

  unfoldable pub score_fingerprint_mismatch : Text → Meta → ℕ
  score_fingerprint_mismatch user_agent meta =
      let is_browser = claims.names_browser user_agent in
      if is_empty user_agent
      then 0
      else min
          (penalty (lacks_client_hint user_agent meta) 20
            + penalty (is_browser && lacks_sec_fetch meta) 15
            + penalty (is_browser && lacks_language meta) 10
            + penalty (is_browser && accepts_anything meta) 5)
          50

  unfoldable pub classify_fingerprint : Text → Meta → FingerprintVerdict
  unfolding score_fingerprint_mismatch
  classify_fingerprint user_agent meta =
      let mismatch = score_fingerprint_mismatch user_agent meta in
      if leb 30 mismatch
      then bot
      else if leb 15 mismatch
      then suspicious
      else if is_empty user_agent
      then unknown
      else if not (is_some (claims.chrome_version user_agent) || claims.names_browser user_agent)
      then unknown
      else browser

-- The registry of fingerprints of clients that have solved a challenge.
abbrev pub known_fp_key : Text → Text
known_fp_key fp_hash = text "waf:known_fp:" ++ fp_hash

module _ (r : Redis) where
  unfoldable pub register_known_fingerprint : Text → Exec r.Server (Unit {0})
  register_known_fingerprint fp_hash =
      if is_empty fp_hash
      then pure tt
      else try_except
          (do r.incr (known_fp_key fp_hash); r.expire (known_fp_key fp_hash) (86400 * 30)) (pure tt)

  unfoldable pub is_known_fingerprint : Text → Exec r.Server Bool
  is_known_fingerprint fp_hash =
      if is_empty fp_hash
      then pure false
      else try_except (do found ← r.get (known_fp_key fp_hash); pure (is_truthy found)) (pure false)
