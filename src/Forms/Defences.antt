-- ===== src/Forms/Defences.antt =====
-- forms/defences/: what each of the eight defences makes of a submission.
--
-- `none` of the `Exec` is an exception that the defence does not catch. One reading of the clock,
-- `now`, serves a submission. `c.sha256` gives the bytes of the digest.
pub mod Honeypot
pub mod Laws
pub mod FreshToken
pub mod Reading
use django_waf.Base.{
  ℕ, ◌+◌, ◌*◌, ◌%◌, Bool, true, false, not, ◌&&◌, Option, none, some, List, [], ◌∷◌, ◌++◌, Text,
  text, ltb, leb, if◌then◌else◌, is_empty, ◌=ᵗ◌, take, get_or, lookup,
}
use django_waf.Exec.{Exec, pure, raise, try_except, ◌>>=◌}
use django_waf.Redis.{Redis}
use django_waf.RateLimiter.{second}
use django_waf.Challenge.Work.{digest_has_leading_zero_bits}
use django_waf.Forms.Tokens.{
  Codec, TokenPayload, Verified, verified, value_error, type_error, verify_token, hash_user_agent,
}
use django_waf.Forms.Context.{
  Outcome, passed, flagged, blocked, FormRequest, FormConf, Config, EvaluateContext,
}
use django_waf.Forms.Services.{marker_exists, credential_ip_count, signup_count}
use django_waf.Forms.Defences.Honeypot.{honeypot_evaluate}

pub data DefenceName : Type 0 where
  render_token honeypot time_trap ua_consistency js_touch credential_throttle signup_velocity
        pow_gate :
      DefenceName

abbrev pub name_text : DefenceName → Text
name_text render_token = text "render_token"
name_text honeypot = text "honeypot"
name_text time_trap = text "time_trap"
name_text ua_consistency = text "ua_consistency"
name_text js_touch = text "js_touch"
name_text credential_throttle = text "credential_throttle"
name_text signup_velocity = text "signup_velocity"
name_text pow_gate = text "pow_gate"

-- `ctx.submitted_data.get(name) or ""`
abbrev pub field : Text → EvaluateContext → Text
field name ctx = get_or (lookup name ctx.submitted_data) []

module _ (r : Redis) (c : Codec) (int : Text → Option ℕ) (key : Text) (conf : FormConf) (now : ℕ)
    (ctx : EvaluateContext) where
  abbrev pub ttl_of_context : ℕ
  ttl_of_context = get_or ctx.config.token_ttl conf.token_ttl

  -- The marker and the address, once the token is known to be authentic and in time.
  judge_marker : TokenPayload → Bool → Outcome
  judge_marker payload present =
      if not present && ltb (payload.render_time + 5 * second) now
      then blocked (text "render_token:replayed") 50
      else if not (is_empty payload.ip) && not (payload.ip =ᵗ ctx.request.ip)
      then flagged 30 (text "render_token:ip_changed")
      else passed

  judge_token : Verified TokenPayload → Exec r.Server Outcome
  judge_token value_error = pure (blocked (text "render_token:invalid") 50)
  judge_token type_error = raise
  judge_token (verified payload) =
      if ltb (payload.render_time + ttl_of_context * second) now
      then pure (blocked (text "render_token:expired") 50)
      else try_except (marker_exists r payload.nonce) (pure true) >>= λ present.
          pure (judge_marker payload present)

  unfoldable pub render_token_evaluate : Exec r.Server Outcome
  unfolding judge_marker judge_token
  render_token_evaluate =
      if is_empty (field (text "waf_token") ctx)
      then pure (blocked (text "render_token:missing") 50)
      else judge_token (verify_token c key (field (text "waf_token") ctx))

  judge_delay : Option TokenPayload → Outcome
  judge_delay none = passed
  judge_delay (some payload) =
      if ltb now (payload.render_time + 500000)
      then blocked (text "time_trap:too_fast") 50
      else if ltb now (payload.render_time + get_or ctx.config.min_fill conf.time_trap_min)
      then flagged 20 (text "time_trap:fast")
      else if ltb (payload.render_time + get_or ctx.config.max_fill conf.time_trap_max) now
      then flagged 20 (text "time_trap:expired")
      else passed

  unfoldable pub time_trap_evaluate : Outcome
  unfolding judge_delay
  time_trap_evaluate = judge_delay ctx.token_payload

  judge_user_agent : Option TokenPayload → Outcome
  judge_user_agent none = passed
  judge_user_agent (some payload) =
      if not (hash_user_agent c ctx.request.user_agent =ᵗ payload.ua_hash)
      then flagged 20 (text "ua_consistency:changed")
      else passed

  unfoldable pub ua_consistency_evaluate : Outcome
  unfolding judge_user_agent
  ua_consistency_evaluate = judge_user_agent ctx.token_payload

  abbrev pub expected_value : Text → Text
  expected_value token_nonce = take 16 (c.hmac key (text "js_touch:" ++ token_nonce))

  nonce_of_touch : Option TokenPayload → Text
  nonce_of_touch none = get_or ctx.config.token_nonce ctx.form_id
  nonce_of_touch (some payload) = payload.nonce

  unfoldable pub js_touch_evaluate : Outcome
  unfolding nonce_of_touch
  js_touch_evaluate =
      if field (text "waf_js_touch") ctx =ᵗ text "unset"
      then flagged 15 (text "js_touch:not_set")
      else if is_empty (field (text "waf_js_touch") ctx)
      then flagged 15 (text "js_touch:missing")
      else if not
          (field (text "waf_js_touch") ctx =ᵗ expected_value (nonce_of_touch ctx.token_payload))
      then flagged 15 (text "js_touch:invalid")
      else passed

  -- The count is read inside a `try` whose handler passes.
  unfoldable pub credential_throttle_evaluate : Exec r.Server Outcome
  credential_throttle_evaluate =
      if is_empty ctx.request.ip
      then pure passed
      else try_except
          (credential_ip_count r int ctx.request.ip >>= λ count. pure (
            if leb (get_or ctx.config.ip_limit conf.credential_ip_limit) count
            then flagged 50 (text "credential_throttle:ip")
            else passed))
          (pure passed)

  unfoldable pub signup_velocity_evaluate : Exec r.Server Outcome
  signup_velocity_evaluate =
      if is_empty ctx.request.ip
      then pure passed
      else try_except
          (signup_count r int ctx.request.ip >>= λ count. pure (
            if leb (get_or ctx.config.limit conf.signup_velocity_limit) count
            then flagged 50 (text "signup_velocity:ip")
            else passed))
          (pure passed)

  abbrev pub verify_nonce : Text → Text → ℕ → Bool
  verify_nonce token_nonce candidate_nonce difficulty =
      digest_has_leading_zero_bits (c.sha256 (token_nonce ++ text ":" ++ candidate_nonce))
        difficulty

  -- The payload's nonce, else the bind field, else the form's id.
  nonce_of_work : Option TokenPayload → Text → Text
  nonce_of_work (some payload) bind = payload.nonce
  nonce_of_work none bind = if is_empty bind then ctx.form_id else bind

  unfoldable pub pow_gate_evaluate : Outcome
  unfolding nonce_of_work
  pow_gate_evaluate =
      if is_empty (field (text "waf_pow_nonce") ctx)
      then blocked (text "pow_gate:missing") 50
      else if not (
          verify_nonce (nonce_of_work ctx.token_payload (field (text "waf_pow_token") ctx))
            (field (text "waf_pow_nonce") ctx) (get_or ctx.config.difficulty conf.pow_difficulty))
      then blocked (text "pow_gate:invalid") 50
      else passed

  unfoldable pub defence_evaluate : DefenceName → Exec r.Server Outcome
  defence_evaluate render_token = render_token_evaluate
  defence_evaluate honeypot = pure (honeypot_evaluate c.sha256 conf ctx)
  defence_evaluate time_trap = pure time_trap_evaluate
  defence_evaluate ua_consistency = pure ua_consistency_evaluate
  defence_evaluate js_touch = pure js_touch_evaluate
  defence_evaluate credential_throttle = credential_throttle_evaluate
  defence_evaluate signup_velocity = signup_velocity_evaluate
  defence_evaluate pow_gate = pure pow_gate_evaluate
