-- ===== src/Middleware/SignedCookies.antt =====
-- services/trusted_user_service.py and services/site_password_service.py: the cookies that are
-- signed with Django's `TimestampSigner`.
--
-- A signer is a record of its two methods at a time in microseconds; a life is a number of seconds.
-- Each of the two cookies has a signer and a `CookieConf` of its own; a domain is `none` for `None`.
pub mod Laws
use django_waf.Base.{
  ℕ, ◌+◌, ◌*◌, ◌≤◌, Bool, true, false, not, ◌&&◌, ◌||◌, ◌≡◌, Option, none, some, [], ◌∷◌, ◌++◌,
  Text, text, ltb, if◌then◌else◌, ◌=ᵗ◌, is_empty, partition,
}
use django_waf.RateLimiter.{second}
use django_waf.Rules.{Platform}
use django_waf.Client.Address.{ProxyConf, resolve_client_ip}

pub record Signer : Type 0 where
  pub sign : Text → ℕ → Text
  -- `unsign(value, max_age=…)`, and `none` for a BadSignature
  pub unsign : Text → ℕ → ℕ → Option Text

-- What was signed is read back while it is no older than its life.
pub record SignerLaws (signer : Signer) : Type 0 where
  pub unsign-sign :
      (value : Text) (at max_age now : ℕ)
      → signer.unsign (signer.sign value at) max_age now
        ≡ (if ltb (at + max_age * second) now then none else some value)

pub record CookieConf : Type 0 where
  pub enabled : Bool
  pub trust_level : Text
  pub ttl : ℕ
  pub cookie_domain : Option Text
  pub session_cookie_domain : Option Text

pub record User : Type 0 where
  pub is_authenticated : Bool
  pub is_staff : Bool
  pub is_superuser : Bool

-- The arguments of `set_cookie`; every cookie is HTTP-only and has SameSite=Lax.
pub record Cookie : Type 0 where
  pub name : Text
  pub value : Text
  pub max_age : ℕ
  pub domain : Option Text
  pub secure : Bool

-- What the functions read of a request.
pub record Visit : Type 0 where
  pub remote_addr : Text
  pub forwarded_for : Text
  pub is_secure : Bool
  pub trusted_cookie : Option Text
  pub password_cookie : Option Text

abbrev pub trusted_marker : Text
trusted_marker = text "trusted"

abbrev pub verified_marker : Text
verified_marker = text "verified"

-- A level that is not known is the narrower one.
abbrev get_trust_level : CookieConf → Text
get_trust_level conf =
    if conf.trust_level =ᵗ text "authenticated" then text "authenticated" else text "staff"

unfoldable pub user_meets_trust_level : CookieConf → User → Bool
user_meets_trust_level conf user =
    if not user.is_authenticated
    then false
    else if get_trust_level conf =ᵗ text "authenticated"
    then true
    else user.is_staff || user.is_superuser

abbrev domain_of : CookieConf → Option Text
domain_of conf = elim conf.cookie_domain [
  | none ↦ conf.session_cookie_domain
  | some domain ↦ some domain
]

abbrev pub build_payload : Text → Text
build_payload ip_address = trusted_marker ++ b':' ∷ ip_address

module _ (signer : Signer) (conf : CookieConf) where
  unsigned : Option Text → ℕ → Option Text
  unsigned none now = none
  unsigned (some cookie_value) now =
      if is_empty cookie_value then none else signer.unsign cookie_value conf.ttl now

  module _ (p : Platform) (proxies : ProxyConf) where
    abbrev pub client_of : Visit → Text
    client_of visit = resolve_client_ip p proxies visit.remote_addr visit.forwarded_for

    unfoldable pub set_trusted_cookie : Visit → ℕ → Cookie
    set_trusted_cookie visit now = record {
      name = text "waf_trusted";
      value = signer.sign (build_payload (client_of visit)) now;
      max_age = conf.ttl;
      domain = domain_of conf;
      secure = visit.is_secure;
    }

    -- `payload.partition(":")`, which with no colon gives the payload and an empty rest
    names_client : Text → Option (Text × Text) → Text → Bool
    names_client payload none client = payload =ᵗ trusted_marker && [] =ᵗ client
    names_client payload (some (marker, bound_ip)) client =
        if not (marker =ᵗ trusted_marker) then false else bound_ip =ᵗ client

    payload_holds : Option Text → Text → Bool
    unfolding names_client
    payload_holds none client = false
    payload_holds (some payload) client = names_client payload (partition b':' payload) client

    unfoldable pub has_valid_trusted_cookie : Visit → ℕ → Bool
    unfolding payload_holds unsigned
    has_valid_trusted_cookie visit now =
        if not conf.enabled
        then false
        else payload_holds (unsigned visit.trusted_cookie now) (client_of visit)

  unfoldable pub set_verified_cookie : Visit → ℕ → Cookie
  set_verified_cookie visit now = record {
    name = text "waf_site_password";
    value = signer.sign verified_marker now;
    max_age = conf.ttl;
    domain = domain_of conf;
    secure = visit.is_secure;
  }

  is_verified : Option Text → Bool
  is_verified none = false
  is_verified (some payload) = payload =ᵗ verified_marker

  unfoldable pub has_valid_cookie : Visit → ℕ → Bool
  unfolding is_verified unsigned
  has_valid_cookie visit now = is_verified (unsigned visit.password_cookie now)
