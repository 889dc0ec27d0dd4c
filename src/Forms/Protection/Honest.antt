-- ===== src/Forms/Protection/Honest.antt =====
-- An honest submission passes, whatever the form's defences are.
pub mod Chain
use django_waf.Base.{
  ℕ, ◌+◌, ◌*◌, ◌≤◌, ◌<◌, ◌≡◌, ◌≢◌, refl, sym, ap, true, false, Option, none, some, List, [], ◌∷◌,
  ◌++◌, Text, text, leb, if◌then◌else◌, is_empty, ◌=ᵗ◌, =ᵗ_refl, any, get_or, arith, All,
  All-append,
}
use mathlib.Core.Path.{subst}
use django_waf.Exec.{Exec, pure, try_except, ◌>>=◌}
use django_waf.Exec.EnsuresAt.{
  EnsuresAt, EnsuresAt-pure, EnsuresAt-if, EnsuresAt-try, EnsuresAt-bind,
}
use django_waf.Redis.{Redis}
use django_waf.RateLimiter.{second}
use django_waf.Forms.Tokens.{
  Codec, TokenPayload, verified, type_error, verify_token, hash_user_agent,
}
use django_waf.Forms.Context.{
  Outcome, passed, flagged, is_block, is_pass, FormRequest, FormConf, EvaluateContext,
}
use django_waf.Forms.Services.{marker_key, credential_ip_count, signup_count}
use django_waf.Forms.Defences.Honeypot.{
  honeypot_names, is_filled, honeypot_evaluate, honeypot_passes,
}
use django_waf.Forms.Defences.{
  DefenceName, render_token, honeypot, time_trap, ua_consistency, js_touch, credential_throttle,
  signup_velocity, pow_gate, field, expected_value, verify_nonce, time_trap_evaluate,
  ua_consistency_evaluate, js_touch_evaluate, credential_throttle_evaluate,
  signup_velocity_evaluate, pow_gate_evaluate, defence_evaluate,
}
use django_waf.Forms.Defences.Laws.{Passes}
use django_waf.Forms.Defences.FreshToken.{render_token-Passes}
use django_waf.Forms.Protection.{
  passed_form, FormEvaluationResult, FormProtection, names_for, submitted_token, context_for,
  contribution, zip_scores, aggregate_score, resolve_verdict, run_defence, payload_after, result_of,
  blocked_now, chain, evaluate,
}
use django_waf.Forms.Protection.Returns.{evaluate-Total}

module _ (conf : FormConf) (form : FormProtection) where
  zip_scores-zero :
      (outcomes : List Outcome) (names : List DefenceName)
      → All Passes outcomes
      → zip_scores conf form outcomes names ≡ 0
  unfolding zip_scores contribution
  zip_scores-zero [] names _ = refl
  zip_scores-zero (o ∷ outcomes) [] _ = refl
  zip_scores-zero (o ∷ outcomes) (d ∷ names) (p, h) =
      rw (p, zip_scores-zero outcomes names h) (omega arith)

  pub aggregate_score-zero :
      (outcomes : List Outcome) → All Passes outcomes → aggregate_score conf form outcomes ≡ 0
  unfolding aggregate_score
  aggregate_score-zero outcomes = zip_scores-zero outcomes form.defence_names

  module _ (r : Redis) (c : Codec) (int : Text → Option ℕ) (key : Text) (now : ℕ)
      (request : FormRequest) (submitted_data : List (Text × Text)) (p : TokenPayload)
      (s : r.Server) where
    abbrev pub ctx : EvaluateContext
    ctx = context_for conf form r c int key now request submitted_data (some p)

    -- The submission of a browser that renders the form, runs its scripts, leaves the hidden fields
    -- alone, takes its time, and stays where it is, to a server that has not lost the token's marker
    -- and has counted little for its address.
    pub record Honest : Type 0 where
      pub given : is_empty (field (text "waf_token") ctx) ≡ false
      pub valid : verify_token c key (field (text "waf_token") ctx) ≡ verified p
      pub same_ip : p.ip ≡ request.ip
      pub same_agent : p.ua_hash ≡ hash_user_agent c request.user_agent
      pub in_time : now ≤ p.render_time + get_or ctx.config.token_ttl conf.token_ttl * second
      pub unused : (r.exists (marker_key p.nonce) s).0 ≢ some false
      pub not_at_once : p.render_time + 500000 ≤ now
      pub not_fast : p.render_time + get_or ctx.config.min_fill conf.time_trap_min ≤ now
      pub not_stale : now ≤ p.render_time + get_or ctx.config.max_fill conf.time_trap_max
      pub untouched : any (is_filled c.sha256 conf ctx) (honeypot_names c.sha256 conf ctx) ≡ false
      pub touched :
          field (text "waf_js_touch") ctx ≡ expected_value r c int key conf now ctx p.nonce
      pub is_set : (expected_value r c int key conf now ctx p.nonce =ᵗ text "unset") ≡ false
      pub is_there : is_empty (expected_value r c int key conf now ctx p.nonce) ≡ false
      pub has_work : is_empty (field (text "waf_pow_nonce") ctx) ≡ false
      pub works :
          verify_nonce r c int key conf now ctx p.nonce
            (field (text "waf_pow_nonce") ctx)
            (get_or ctx.config.difficulty conf.pow_difficulty)
          ≡ true
      pub few_failures :
          (n : ℕ)
          → (credential_ip_count r int request.ip s).0 ≡ some n
          → n < get_or ctx.config.ip_limit conf.credential_ip_limit
      pub few_signups :
          (n : ℕ)
          → (signup_count r int request.ip s).0 ≡ some n
          → n < get_or ctx.config.limit conf.signup_velocity_limit

    module _ (h : Honest) where
      time_trap-Passes : Passes (time_trap_evaluate r c int key conf now ctx)
      unfolding time_trap_evaluate
      time_trap-Passes = ground (arith, h.not_at_once, h.not_fast, h.not_stale)

      agent-Passes : Passes (ua_consistency_evaluate r c int key conf now ctx)
      unfolding ua_consistency_evaluate
      agent-Passes = simp (h.same_agent, =ᵗ_refl)

      touch-Passes : Passes (js_touch_evaluate r c int key conf now ctx)
      unfolding js_touch_evaluate
      touch-Passes = simp (h.touched, h.is_set, h.is_there, =ᵗ_refl)

      work-Passes : Passes (pow_gate_evaluate r c int key conf now ctx)
      unfolding pow_gate_evaluate
      work-Passes = simp (h.has_work, h.works)

      -- The body of the two throttles.
      throttle-Passes :
          (count_of : Exec r.Server ℕ) (limit : ℕ) (reason : Text)
          → ((n : ℕ) → (count_of s).0 ≡ some n → n < limit)
          → EnsuresAt s
              (λ o t. Passes o)
              (if is_empty request.ip
                then pure passed
                else try_except
                    (count_of >>= λ count.
                      pure (if leb limit count then flagged 50 reason else passed))
                    (pure passed))
      throttle-Passes count_of limit reason few =
          EnsuresAt-if s _ (is_empty request.ip) (pure passed) _
            (λ _. EnsuresAt-pure s _ passed refl)
            (λ _.
              EnsuresAt-try s Passes
                (count_of >>= λ count. pure (if leb limit count then flagged 50 reason else passed))
                passed
                (EnsuresAt-bind _ s (λ n t. n < limit) count_of
                  (λ count. pure (if leb limit count then flagged 50 reason else passed))
                  (record { at = few })
                  λ count t less.
                    EnsuresAt-pure t _ (if leb limit count then flagged 50 reason else passed)
                      (ground (arith, less)))
                refl)

      -- Later defences and, if it came again, the render token.
      defence-Passes :
          (d : DefenceName)
          → EnsuresAt s (λ o t. Passes o) (defence_evaluate r c int key conf now ctx d)
      unfolding defence_evaluate credential_throttle_evaluate signup_velocity_evaluate
      defence-Passes render_token =
          render_token-Passes r c int key conf now ctx p s h.given h.valid h.in_time h.same_ip
            h.unused
      defence-Passes honeypot =
          EnsuresAt-pure s _ (honeypot_evaluate c.sha256 conf ctx)
            (ap is_pass (honeypot_passes c.sha256 conf ctx h.untouched))
      defence-Passes time_trap = EnsuresAt-pure s _ _ time_trap-Passes
      defence-Passes ua_consistency = EnsuresAt-pure s _ _ agent-Passes
      defence-Passes js_touch = EnsuresAt-pure s _ _ touch-Passes
      defence-Passes credential_throttle =
          throttle-Passes (credential_ip_count r int request.ip)
            (get_or ctx.config.ip_limit conf.credential_ip_limit) (text "credential_throttle:ip")
            h.few_failures
      defence-Passes signup_velocity =
          throttle-Passes (signup_count r int request.ip)
            (get_or ctx.config.limit conf.signup_velocity_limit) (text "signup_velocity:ip")
            h.few_signups
      defence-Passes pow_gate = EnsuresAt-pure s _ _ work-Passes

      run-Passes :
          (d : DefenceName)
          → EnsuresAt s
              (λ o t. Passes o)
              (run_defence conf form r c int key now request submitted_data d (some p))
      unfolding run_defence
      run-Passes d = EnsuresAt-try s Passes _ passed (defence-Passes d) refl
