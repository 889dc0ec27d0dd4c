-- ===== src/Middleware.antt =====
-- middleware.py: the request, the response, and what the middleware changes.
--
-- `next_is_safe` is Django's `url_has_allowed_host_and_scheme`, `reverse_challenge` and
-- `reverse_verify` are its `reverse`, where `none` is `NoReverseMatch`. A handler of the operator's
-- is a function from the result to what comes of it. A response has what the code sets on it.
pub mod SitePassword
pub mod SignedCookies
pub mod Verdicts
pub mod Call
pub mod Escalation
use django_waf.Base.{ℕ, Bool, true, false, Option, none, some, List, Text}
use django_waf.Exec.{Exec}
use django_waf.Redis.{Redis}
use django_waf.Rules.{Verdict, EvaluationResult}
use django_waf.Rules.RuleCache.{Engine}
use django_waf.Rules.Evaluate.{Site, Request}

pub data Response : Type 0 where
  -- the view's own response, with the cookie for trusted users or without it
  view : (trusted_cookie : Bool) → Response
  forbidden : Response
  too_many_requests : (retry_after : ℕ) → Response
  handled : (status : ℕ) (body : Text) → Response
  redirect : (url : Text) → Response
  method_not_allowed : (allow : List Text) → Response
  password_prompt : (error next_url : Text) → Response
  password_verified : (url : Text) → Response
  too_many_attempts : (retry_after : ℕ) → Response

-- What comes of a response handler: the setting is empty, its path does not import, the handler
-- raises, it returns something else than a response, or a response.
pub data Handling : Type 0 where
  unset import_error raised not_a_response : Handling
  returned : (status : ℕ) (body : Text) → Handling

pub record User : Type 0 where
  pub is_authenticated : Bool
  pub is_staff : Bool
  pub is_superuser : Bool

pub record HttpRequest : Type 0 where
  -- its `ip` is what `_extract_ip` finds, "" if it finds none
  pub request : Request
  pub host : Text
  pub full_path : Text
  pub waf_pass : Text
  pub has_password_cookie : Bool
  pub has_trusted_cookie : Bool
  pub user : Option User
  pub password : Text
  pub next : Text
  pub next_is_safe : Bool
  -- whether Django can read the posted form, and whether `get_host` takes the host, which raise else
  pub form_is_readable : Bool
  pub host_is_allowed : Bool
  -- the flag that a login in the view leaves on the request
  pub set_trusted_cookie : Bool
  -- whether `_get_redis_client` gives a client
  pub has_redis : Bool
  -- `lookup_country`: `none` for an exception, "" for no answer
  pub country : Option Text
  -- whether the sample takes the request, and whether the database takes the record
  pub sampled : Bool
  pub log_is_up : Bool

pub record MiddlewareConf : Type 0 where
  pub enabled : Bool
  pub exempt_paths : List Text
  pub exempt_hosts : List Text
  pub allowed_methods : Option (List Text)
  pub blocked_countries : List Text
  pub challenge_url : Text
  pub verify_url : Text
  pub reverse_challenge : Option Text
  pub reverse_verify : Option Text
  pub site_password_enabled : Bool
  pub site_password : Text
  pub site_password_exempt_paths : List Text
  pub site_password_verify_path : Text
  pub block_handler : EvaluationResult → Handling
  pub throttle_handler : EvaluationResult → Handling
  -- the pass cookie's signature, canonical addresses and numbers
  pub sign : Text → Text
  pub canonical : Text → Option Text
  pub read : Text → Option ℕ

pub data WafSignal : Type 0 where
  request_blocked request_throttled : (result : EvaluationResult) → WafSignal

pub record LogEntry : Type 0 where
  pub verdict : Verdict
  pub matched_rule_id : Option Text
  pub matched_rule_type : Text
  pub anomaly_score : Option ℕ
  pub response_code : ℕ

pub record Traffic (r : Redis) : Type 0 where
  pub engine : Engine r
  pub signals : List WafSignal
  pub logs : List LogEntry

module _ (r : Redis) where
  abbrev pub with_engine : {A : Type 0} → Exec (Engine r) A → Exec (Traffic r) A
  with_engine m t = let (a, engine) = m t.engine in (a, record t { engine = engine })

-- `_get_response`
pub get_response : HttpRequest → Response
get_response http = view http.set_trusted_cookie

abbrev pub is_view : Response → Bool
is_view (view trusted_cookie) = true
is_view _ = false
