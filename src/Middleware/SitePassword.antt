-- ===== src/Middleware/SitePassword.antt =====
-- middleware.py and services/site_password_service.py: the gate that asks for the site's password.
pub mod Laws
use django_waf.Base.{
  ℕ, ◌≡◌, refl, Bool, true, false, not, ◌&&◌, ◌||◌, Option, none, some, List, [], ◌∷◌, Text, text,
  if◌then◌else◌, is_empty, ◌=ᵗ◌, =ᵗ_iff, any, starts_with, get_or, arith, ◌⊎◌, ◌↔◌, inl, inr,
  Bool-cases,
}
use django_waf.Exec.{Exec, pure, raise, try_except, ◌>>=◌}
use django_waf.Forms.Tokens.{is_ascii}
use django_waf.Redis.{Redis}
use django_waf.RateLimiter.{RateLimitResult, within_limit, check_rate_limit}
use django_waf.Rules.RuleCache.{redis}
use django_waf.Rules.Evaluate.{Site}
use django_waf.Middleware.{
  Response, redirect, password_prompt, password_verified, too_many_attempts, HttpRequest,
  MiddlewareConf, Traffic, with_engine,
}

-- `hmac.compare_digest` of two `str` is equality where both are ASCII, and else a TypeError, which
-- is `none`.
unfoldable pub check_password : Text → Text → Option Bool
check_password stored submitted =
    if is_empty stored || is_empty submitted
    then some false
    else if is_ascii submitted && is_ascii stored
    then some (submitted =ᵗ stored)
    else none

abbrev pub incorrect_error : Text
incorrect_error = text "Incorrect password. Please try again."

abbrev pub misconfigured_error : Text
misconfigured_error = text "This site is temporarily unavailable."

module _ (site : Site) (r : Redis) (conf : MiddlewareConf) (http : HttpRequest) where
  open site use {platform}

  -- `record_guess_throttle_hit_detailed`: the rate limit of the verify path, with no method.
  record_guess : Exec (Traffic r) RateLimitResult
  record_guess =
      let ip = if is_empty http.request.ip then text "0.0.0.0" else http.request.ip in
      if http.has_redis
      then try_except
          (with_engine r (
            redis r (
              check_rate_limit r platform.upper platform.short_hash site.conf.rate ip
                conf.site_password_verify_path http.request.now [])))
          (pure within_limit)
      else pure within_limit

  answer_guess : RateLimitResult → Exec (Traffic r) Response
  answer_guess throttle_result =
      if throttle_result.exceeded
      then pure (too_many_attempts (get_or throttle_result.retry_after 60))
      else pure (password_prompt incorrect_error http.next)

  -- The host is asked for only where there is a `next`.
  redirect_next : Exec (Traffic r) Response
  redirect_next =
      if is_empty http.next
      then pure (password_verified (text "/"))
      else if not http.host_is_allowed
      then raise
      else pure (password_verified (if http.next_is_safe then http.next else text "/"))

  judge_guess : Option Bool → Exec (Traffic r) Response
  unfolding record_guess answer_guess redirect_next
  judge_guess none = raise
  judge_guess (some true) = redirect_next
  judge_guess (some false) = record_guess >>= answer_guess

  handle_site_password_verify : Exec (Traffic r) Response
  unfolding judge_guess
  handle_site_password_verify =
      if not http.form_is_readable
      then raise
      else judge_guess (check_password conf.site_password http.password)

  abbrev pub is_exempt_path : Bool
  is_exempt_path =
      any (λ prefix. starts_with http.request.path prefix) conf.site_password_exempt_paths

  abbrev pub is_verify : Bool
  is_verify =
      http.request.method =ᵗ text "POST" && http.request.path =ᵗ conf.site_password_verify_path

  answered : Exec (Traffic r) Response → Exec (Traffic r) (Option Response)
  answered m = do response ← m; pure (some response)

  -- `none` lets the request go on.
  unfoldable pub check_site_password : Exec (Traffic r) (Option Response)
  unfolding answered handle_site_password_verify
  check_site_password =
      if not conf.site_password_enabled
      then pure none
      else if is_exempt_path
      then pure none
      else if is_empty conf.site_password
      then pure (some (password_prompt misconfigured_error http.full_path))
      else if http.has_password_cookie
      then pure none
      else if is_verify
      then answered handle_site_password_verify
      else pure (some (password_prompt [] http.full_path))
