-- ===== src/Middleware/Call.antt =====
-- middleware.py: `__call__`, the gates in their order.
pub mod Laws
pub mod Answers
use django_waf.Base.{
  ℕ, Bool, true, false, not, ◌&&◌, ◌||◌, Option, none, some, List, [], ◌∷◌, ◌++◌, Text, text,
  if◌then◌else◌, is_empty, starts_with, get_or, any, map, reverse, drop, ◌=ᵗ◌, partition,
  rsplit_once, ◌==◌,
}
use django_waf.Exec.{Exec, pure, try_except, return_found, ◌>>=◌, ◌>>◌}
use django_waf.Redis.{Redis}
use django_waf.Challenge.PassCookie.{validate_pass_cookie}
use django_waf.Rules.{block, blocked, EvaluationResult, plain_result}
use django_waf.Rules.Evaluate.{Site, evaluate_request}
use django_waf.Middleware.{
  Response, method_not_allowed, User, HttpRequest, MiddlewareConf, LogEntry, Traffic, with_engine,
  get_response,
}
use django_waf.Middleware.SitePassword.{check_site_password}
use django_waf.Middleware.Verdicts.{
  build_block_response, handle_verdict, append_log, log_request, status_code,
}

-- `s.partition(d)[0]` and `s.rsplit(d, 1)[0]`
before_or_all : Text → Option (Text × Text) → Text
before_or_all s none = s
before_or_all s (some (a, b)) = a

-- `s.lstrip("[")`
lstrip_bracket : Text → Text
lstrip_bracket [] = []
lstrip_bracket (c ∷ s) = if c == b'[' then lstrip_bracket s else c ∷ s

strip_port : Text → Text
unfolding before_or_all lstrip_bracket
strip_port host =
    if starts_with host (text "[")
    then lstrip_bracket (before_or_all host (partition b']' host))
    else before_or_all host (rsplit_once b':' host)

abbrev ends_with : Text → Text → Bool
ends_with s suffix = starts_with (reverse s) (reverse suffix)

abbrev host_matches : Text → Text → Bool
host_matches host entry =
    if starts_with entry (text ".")
    then host =ᵗ drop 1 entry || ends_with host entry
    else host =ᵗ entry

unfoldable pub is_exempt_host : (Text → Text) → Text → List Text → Bool
unfolding strip_port
is_exempt_host lower host exempt_hosts =
    any (λ entry. host_matches (lower (strip_port host)) (lower entry)) exempt_hosts

is_staff_account : Option User → Bool
is_staff_account none = false
is_staff_account (some user) = user.is_authenticated && (user.is_staff || user.is_superuser)

unfoldable pub is_staff_user : HttpRequest → Bool
unfolding is_staff_account
is_staff_user http = http.has_trusted_cookie || is_staff_account http.user

-- `request.method not in allowed`
is_method_refused : Option (List Text) → Text → Bool
is_method_refused none method = false
is_method_refused (some allowed) method = not (any (λ m. m =ᵗ method) allowed)

module _ (site : Site) (r : Redis) (conf : MiddlewareConf) (view_status : ℕ)
    (http : HttpRequest) where
  open site use {platform}
  open http use {request}

  abbrev pub passes_through : Exec (Traffic r) Response
  passes_through = pure (get_response http)

  log_country_block : EvaluationResult → Exec (Traffic r) (Unit {0})
  log_country_block result = if http.log_is_up then append_log r http result 403 else pure tt

  block_country : Text → Exec (Traffic r) (Option Response)
  block_country country =
      if is_empty country
      then pure none
      else if not (any (λ c. platform.upper c =ᵗ platform.upper country) conf.blocked_countries)
      then pure none
      else log_country_block (plain_result blocked (some block))
        >> pure (some (build_block_response r conf http (plain_result blocked (some block))))

  -- An exception of the lookup lets the request go on.
  check_country_block : Option Text → Exec (Traffic r) (Option Response)
  check_country_block none = pure none
  check_country_block (some country) = block_country country

  finish : EvaluationResult → Exec (Traffic r) Response
  finish result = do
    response ← handle_verdict r conf http result
    log_request r http result (status_code view_status response)
    pure response

  judge_outcome : Option EvaluationResult → Exec (Traffic r) Response
  judge_outcome none = passes_through
  judge_outcome (some result) = finish result

  -- `try: evaluate_request(…)  except Exception`, with the result or `none`
  abbrev evaluated : Exec (Traffic r) (Option EvaluationResult)
  evaluated t =
      let (o, after) = with_engine r (evaluate_request site r request) t in (some o, after)

  abbrev pub has_valid_pass : Bool
  has_valid_pass =
      not (is_empty http.waf_pass)
      && validate_pass_cookie conf.sign conf.canonical conf.read http.waf_pass request.ip
          request.now

  judge_traffic : Exec (Traffic r) Response
  judge_traffic = if has_valid_pass then passes_through else evaluated >>= judge_outcome

  after_country : Exec (Traffic r) Response
  after_country =
      if is_staff_user http
      then passes_through
      else if not http.has_redis
      then passes_through
      else judge_traffic

  after_method : Exec (Traffic r) Response
  after_method =
      if is_empty request.ip
      then passes_through
      else check_country_block http.country >>= return_found after_country

  after_password : Exec (Traffic r) Response
  after_password =
      if is_method_refused conf.allowed_methods request.method
      then pure (method_not_allowed (get_or conf.allowed_methods []))
      else after_method

  abbrev pub is_exempt : Bool
  is_exempt =
      not conf.enabled
      || any (λ prefix. starts_with request.path prefix) conf.exempt_paths
      || is_exempt_host platform.lower http.host conf.exempt_hosts

  unfoldable pub call : Exec (Traffic r) Response
  unfolding log_country_block block_country check_country_block finish judge_outcome judge_traffic
      after_country after_method after_password is_method_refused get_response
  call =
      if is_exempt
      then passes_through
      else check_site_password site r conf http >>= return_found after_password
