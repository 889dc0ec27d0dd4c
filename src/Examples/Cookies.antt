-- ===== src/Examples/Cookies.antt =====
-- An example for the signed cookies: a signer that writes the time of signing before the value.
use django_waf.Base.{
  ℕ, ◌+◌, ◌*◌, ◌≤◌, true, false, ◌≡◌, ◌↔◌, refl, Option, none, some, [], ◌∷◌, Text, text, ltb,
  if◌then◌else◌,
}
use django_waf.RateLimiter.{second}
use django_waf.Client.Address.{ProxyConf}
use django_waf.Middleware.SignedCookies.{
  Signer, SignerLaws, CookieConf, Visit, client_of, set_trusted_cookie, has_valid_trusted_cookie,
}
use django_waf.Middleware.SignedCookies.Laws.{has_valid_trusted_cookie-set}
use django_waf.Examples.Deployment.{platform}

abbrev unsign_at : Text → ℕ → ℕ → Option Text
unsign_at [] max_age now = none
unsign_at (at ∷ value) max_age now = if ltb (at + max_age * second) now then none else some value

abbrev signer : Signer
signer = record { sign = λ value at. at ∷ value; unsign = unsign_at }

signer-SignerLaws : SignerLaws signer
signer-SignerLaws = record { unsign-sign = λ value at max_age now. refl }

abbrev conf : CookieConf
conf = record {
  enabled = true;
  trust_level = text "staff";
  ttl = 3600;
  cookie_domain = none;
  session_cookie_domain = none;
}

abbrev proxies : ProxyConf
proxies = record {
  trusted_proxies = [];
  trusted_unix_socket = false;
  trust_x_forwarded_for = false;
}

abbrev login : Visit
login = record {
  remote_addr = text "203.0.113.5";
  forwarded_for = [];
  is_secure = true;
  trusted_cookie = none;
  password_cookie = none;
}

abbrev visit : Visit
visit = record login {
  trusted_cookie = some (set_trusted_cookie signer conf platform proxies login 100).value;
}

has_valid_trusted_cookie-set_example :
    (has_valid_trusted_cookie signer conf platform proxies visit 200 ≡ true) ↔ (
      (conf.enabled ≡ true)
      × (200 ≤ 100 + conf.ttl * second)
      × (client_of signer conf platform proxies login
          ≡ client_of signer conf platform proxies visit))
unfolding set_trusted_cookie
has_valid_trusted_cookie-set_example =
    has_valid_trusted_cookie-set signer signer-SignerLaws conf platform proxies login visit 100 200
      refl refl
