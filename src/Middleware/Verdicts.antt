-- ===== src/Middleware/Verdicts.antt =====
-- middleware.py: `_handle_verdict`, the responses that it builds, and the log.
pub mod Laws
use django_waf.Base.{
  ℕ, Bool, true, false, not, ◌&&◌, ◌||◌, Option, none, some, List, [], ◌∷◌, ◌++◌, Text, text,
  if◌then◌else◌, is_empty, starts_with, get_or,
}
use django_waf.Exec.{Exec, pure, try_except, ◌>>=◌, ◌>>◌}
use django_waf.Redis.{Redis}
use django_waf.Rules.{
  Verdict, allowed, blocked, challenged, throttled, passed, logged, EvaluationResult,
}
use django_waf.Rules.RuleCache.{redis}
use django_waf.Rules.Gate.{challenged_key, record_block_verdict}
use django_waf.Middleware.{
  Response, view, forbidden, too_many_requests, handled, redirect, method_not_allowed,
  password_prompt, password_verified, too_many_attempts, Handling, unset, import_error, raised,
  not_a_response, returned, HttpRequest, MiddlewareConf, WafSignal, request_blocked,
  request_throttled, LogEntry, Traffic, with_engine, get_response,
}

-- Every failure of a handler falls back to the built-in response.
respond : Response → Handling → Response
respond default unset = default
respond default import_error = default
respond default raised = default
respond default not_a_response = default
respond default (returned status body) = handled status body

or_reverse : Text → Option Text → Option Text
or_reverse setting reversed = if is_empty setting then reversed else some setting

both_paths : Option Text → Option Text → Option (Text × Text)
both_paths (some challenge_path) (some verify_path) = some (challenge_path, verify_path)
both_paths (some challenge_path) none = none
both_paths none verify_path = none

-- `none` is `NoReverseMatch`.
unfoldable pub get_challenge_paths : MiddlewareConf → Option (Text × Text)
unfolding or_reverse both_paths
get_challenge_paths conf =
    both_paths (or_reverse conf.challenge_url conf.reverse_challenge)
      (or_reverse conf.verify_url conf.reverse_verify)

module _ (r : Redis) (conf : MiddlewareConf) (http : HttpRequest) where
  open http use {request}

  unfoldable pub build_block_response : EvaluationResult → Response
  unfolding respond
  build_block_response result = respond forbidden (conf.block_handler result)

  unfoldable pub build_throttle_response : EvaluationResult → Response
  unfolding respond
  build_throttle_response result =
      respond (too_many_requests (get_or result.retry_after 60)) (conf.throttle_handler result)

  abbrev emit : WafSignal → Exec (Traffic r) (Unit {0})
  emit signal t = (some tt, record t { signals = signal ∷ t.signals })

  -- The default life of the record is 300 seconds.
  record_block : EvaluationResult → Exec (Traffic r) (Unit {0})
  record_block result =
      try_except
        (with_engine r (redis r (record_block_verdict r request.ip 300 result.matched_rule_id)))
        (pure tt)

  handle_blocked : EvaluationResult → Exec (Traffic r) Response
  handle_blocked result = do
    record_block result
    emit (request_blocked result)
    pure (build_block_response result)

  count_challenge : Exec (Traffic r) (Unit {0})
  count_challenge =
      try_except
        (with_engine r (
          redis r
            (do r.incr (challenged_key request.ip); r.expire (challenged_key request.ip) 3600)))
        (pure tt)

  handle_challenged : Option (Text × Text) → Exec (Traffic r) Response
  handle_challenged none = pure (get_response http)
  handle_challenged (some (challenge_path, verify_path)) =
      if starts_with request.path challenge_path || starts_with request.path verify_path
      then pure (get_response http)
      else count_challenge >> pure (redirect (challenge_path ++ text "?next=" ++ request.path))

  respond_to : Verdict → EvaluationResult → Exec (Traffic r) Response
  respond_to blocked result = handle_blocked result
  respond_to throttled result = do
    emit (request_throttled result)
    pure (build_throttle_response result)
  respond_to challenged result = handle_challenged (get_challenge_paths conf)
  respond_to _ result = pure (get_response http)

  unfoldable pub handle_verdict : EvaluationResult → Exec (Traffic r) Response
  unfolding record_block handle_blocked count_challenge handle_challenged respond_to get_response
  handle_verdict result = respond_to result.verdict result

abbrev pub always_logged : Verdict → Bool
always_logged allowed = false
always_logged passed = false
always_logged _ = true

-- The status of the view's own response is that of the parameter.
unfoldable pub status_code : ℕ → Response → ℕ
status_code view_status (view trusted_cookie) = view_status
status_code view_status forbidden = 403
status_code view_status (too_many_requests retry_after) = 429
status_code view_status (handled status body) = status
status_code view_status (redirect url) = 302
status_code view_status (method_not_allowed allow) = 405
status_code view_status (password_prompt error next_url) = 401
status_code view_status (password_verified url) = 302
status_code view_status (too_many_attempts retry_after) = 429

module _ (r : Redis) (http : HttpRequest) where
  abbrev pub append_log : EvaluationResult → ℕ → Exec (Traffic r) (Unit {0})
  append_log result response_code t = (
    some tt,
    record t {
      logs =
          record {
            verdict = result.verdict;
            matched_rule_id = result.matched_rule_id;
            matched_rule_type = result.matched_rule_type;
            anomaly_score = result.anomaly_score;
            response_code = response_code;
          }
          ∷ t.logs;
    },
  )

  unfoldable pub log_request : EvaluationResult → ℕ → Exec (Traffic r) (Unit {0})
  log_request result response_code =
      if not (always_logged result.verdict) && not http.sampled
      then pure tt
      else if http.log_is_up
      then append_log result response_code
      else pure tt
