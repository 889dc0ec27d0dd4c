-- ===== src/Client/Fingerprint/Laws.antt =====
-- What the score and the verdict of a fingerprint can be.
use django_waf.Base.{◌≤◌, ◌≡◌, ◌⊎◌, true, false, none, Text, arith}
use django_waf.Client.Fingerprint.{
  Meta, Claims, bot, unknown, lacks_client_hint, lacks_sec_fetch, score_fingerprint_mismatch,
  classify_fingerprint,
}

module _ (claims : Claims) (strip : Text → Text) (user_agent : Text) (meta : Meta) where
  -- The score is at most 5.0, and it is 0.0 for a user agent that claims no browser,
  -- whatever its headers are.
  pub score_fingerprint_bounds :
      (score_fingerprint_mismatch claims strip user_agent meta ≤ 50)
      × (claims.chrome_version user_agent ≡ none
          → claims.names_browser user_agent ≡ false
          → score_fingerprint_mismatch claims strip user_agent meta ≡ 0)
  unfolding score_fingerprint_mismatch
  score_fingerprint_bounds = (ground arith, λ h k. ground arith)

  -- The verdict "bot" is given only to a client that claims a browser and lacks headers that this
  -- browser sends: the client hint of a Chromium from 89 on, or the Sec-Fetch headers.
  pub classify-bot :
      classify_fingerprint claims strip user_agent meta ≡ bot
      → (lacks_client_hint claims strip user_agent meta ≡ true)
        ⊎ ((claims.names_browser user_agent ≡ true) × (lacks_sec_fetch claims strip meta ≡ true))
  unfolding classify_fingerprint
  classify-bot h = ground arith

  -- A user agent that claims no browser is "unknown".
  pub classify-unknown :
      claims.chrome_version user_agent ≡ none
      → claims.names_browser user_agent ≡ false
      → classify_fingerprint claims strip user_agent meta ≡ unknown
  unfolding classify_fingerprint
  classify-unknown h k = ground arith
