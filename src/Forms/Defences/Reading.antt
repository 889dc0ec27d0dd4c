-- ===== src/Forms/Defences/Reading.antt =====
-- The defences read Redis and write nothing.
use django_waf.Base.{ℕ, true, Option, Text, text, is_empty, if◌then◌else◌}
use django_waf.Exec.{Exec, pure, try_except, ◌>>=◌}
use django_waf.Exec.EnsuresAt.{Reads, Reads-pure, Reads-raise, Reads-if, Reads-try, Reads-bind}
use django_waf.Redis.{Redis}
use django_waf.Redis.Strings.{ReadLaws}
use django_waf.Forms.Tokens.{Codec, TokenPayload, Verified, verified, value_error, type_error}
use django_waf.Forms.Context.{Outcome, passed, FormConf, EvaluateContext}
use django_waf.Forms.Services.{marker_key, marker_exists, credential_ip_count, signup_count}
use django_waf.Forms.Services.Reading.{credential_ip_count-Reads, signup_count-Reads}
use django_waf.Forms.Defences.{
  DefenceName, render_token, honeypot, time_trap, ua_consistency, js_touch, credential_throttle,
  signup_velocity, pow_gate, field, judge_token, render_token_evaluate,
  credential_throttle_evaluate, signup_velocity_evaluate, defence_evaluate,
}

module _ (r : Redis) (reads : ReadLaws r) (int : Text → Option ℕ) (c : Codec) (key : Text)
    (conf : FormConf) (now : ℕ) (ctx : EvaluateContext) where
  judge_token-Reads : (v : Verified TokenPayload) → Reads (judge_token r c int key conf now ctx v)
  unfolding judge_token marker_exists
  judge_token-Reads value_error = Reads-pure _
  judge_token-Reads type_error = Reads-raise
  judge_token-Reads (verified payload) = Reads-if _ _ _ (Reads-pure _) (
      Reads-bind (try_except (marker_exists r payload.nonce) (pure true)) _
        (Reads-try (marker_exists r payload.nonce) true
          (record { stays = reads.exists_stays (marker_key payload.nonce) }))
        (λ present. Reads-pure _))

  -- The body of the two throttles.
  throttle-Reads :
      (count_of : Exec r.Server ℕ) (judge : ℕ → Outcome)
      → Reads count_of
      → Reads (
          if is_empty ctx.request.ip
          then pure passed
          else try_except (count_of >>= λ count. pure (judge count)) (pure passed))
  throttle-Reads count_of judge k = Reads-if (is_empty ctx.request.ip) _ _ (Reads-pure passed) (
      Reads-try (count_of >>= λ count. pure (judge count)) passed
        (Reads-bind count_of _ k (λ count. Reads-pure (judge count))))

  pub defence-Reads : (d : DefenceName) → Reads (defence_evaluate r c int key conf now ctx d)
  unfolding defence_evaluate render_token_evaluate credential_throttle_evaluate
      signup_velocity_evaluate
  defence-Reads render_token =
      Reads-if (is_empty (field (text "waf_token") ctx)) _ _ (Reads-pure _) (judge_token-Reads _)
  defence-Reads honeypot = Reads-pure _
  defence-Reads time_trap = Reads-pure _
  defence-Reads ua_consistency = Reads-pure _
  defence-Reads js_touch = Reads-pure _
  defence-Reads credential_throttle =
      throttle-Reads (credential_ip_count r int ctx.request.ip) _
        (credential_ip_count-Reads r reads int ctx.request.ip)
  defence-Reads signup_velocity =
      throttle-Reads (signup_count r int ctx.request.ip) _
        (signup_count-Reads r reads int ctx.request.ip)
  defence-Reads pow_gate = Reads-pure _
