-- ===== src/Forms/Defences/Laws.antt =====
-- What an outcome of each defence looks like, and which defences block.
use django_waf.Base.{
  ◌∷◌, [], ℕ, ◌+◌, ◌*◌, ◌≤◌, ◌<◌, ◌≡◌, ◌↔◌, refl, Bool, true, false, not, ◌&&◌, ◌||◌, Option, none,
  some, ◌++◌, Text, text, ltb, leb, ◌==◌, if◌then◌else◌, is_empty, starts_with, get_or, arith, inl,
  inr,
}
use django_waf.Exec.{Exec, pure, try_except, ◌>>=◌}
use django_waf.Exec.Ensures.{
  Ensures, Ensures-pure, Ensures-raise, Ensures-if, Ensures-bind, Ensures-try,
}
use django_waf.Redis.{Redis}
use django_waf.RateLimiter.{second}
use django_waf.Forms.Tokens.{
  Codec, TokenPayload, Verified, verified, value_error, type_error, verify_token,
}
use django_waf.Forms.Context.{
  Outcome, passed, flagged, blocked, is_block, is_pass, FormConf, EvaluateContext,
}
use django_waf.Forms.Services.{marker_exists, credential_ip_count, signup_count}
use django_waf.Forms.Defences.Honeypot.{honeypot_evaluate, honeypot_evaluate-cases}
use django_waf.Forms.Defences.{
  DefenceName, render_token, honeypot, time_trap, ua_consistency, js_touch, credential_throttle,
  signup_velocity, pow_gate, name_text, field, ttl_of_context, judge_marker, judge_token,
  render_token_evaluate, judge_delay, time_trap_evaluate, judge_user_agent, ua_consistency_evaluate,
  js_touch_evaluate, credential_throttle_evaluate, signup_velocity_evaluate, pow_gate_evaluate,
  defence_evaluate,
}

-- The four defences whose evidence the module of outcomes calls deterministic.
abbrev pub can_block : DefenceName → Bool
can_block render_token = true
can_block honeypot = true
can_block time_trap = true
can_block pow_gate = true
can_block _ = false

abbrev pub is_of : DefenceName → Outcome → Bool
is_of d o =
    if is_pass o
    then o.score == 0 && is_empty o.reason
    else starts_with o.reason (name_text d ++ text ":")
      && ltb 0 o.score
      && (not (is_block o) || can_block d)

abbrev pub Passes : Outcome → Type 0
Passes o = is_pass o ≡ true

-- What every outcome of a defence is: a pass has no score, and nothing else lacks a score or a
-- reason.
abbrev pub WellFormed : Outcome → Type 0
WellFormed o =
    (is_pass o ≡ true → o.score ≡ 0)
    × (is_pass o ≡ false → (0 < o.score) × (is_empty o.reason ≡ false))

abbrev pub IsOf : DefenceName → Outcome → Type 0
IsOf d o = is_of d o ≡ true

starts_with-empty : (s p : Text) → is_empty p ≡ false → starts_with s p ≡ true → is_empty s ≡ false
starts_with-empty s [] h e = absurd (let no : ⊥ = cc in no)
starts_with-empty [] (ch ∷ p) h e = cc
starts_with-empty (ch' ∷ s) (ch ∷ p) h e = refl

prefix_lem : (d : DefenceName) → is_empty (name_text d ++ text ":") ≡ false
prefix_lem render_token = refl
prefix_lem honeypot = refl
prefix_lem time_trap = refl
prefix_lem ua_consistency = refl
prefix_lem js_touch = refl
prefix_lem credential_throttle = refl
prefix_lem signup_velocity = refl
prefix_lem pow_gate = refl

named : (d : DefenceName) (o : Outcome) → is_pass o ≡ false → IsOf d o → is_empty o.reason ≡ false
named d o e h = starts_with-empty o.reason (name_text d ++ text ":") (prefix_lem d) (ground arith)

pub IsOf-WellFormed : (d : DefenceName) (o : Outcome) → IsOf d o → WellFormed o
IsOf-WellFormed d o h = (λ e. ground arith, λ e. (ground arith, named d o e h))

module _ (r : Redis) (c : Codec) (int : Text → Option ℕ) (key : Text) (conf : FormConf) (now : ℕ)
    (ctx : EvaluateContext) where
  marker-IsOf :
      (payload : TokenPayload) (present : Bool)
      → IsOf render_token (judge_marker r c int key conf now ctx payload present)
  unfolding judge_marker
  marker-IsOf payload present = ground arith

  token-IsOf :
      (v : Verified TokenPayload)
      → Ensures (IsOf render_token) (judge_token r c int key conf now ctx v)
  unfolding judge_token
  token-IsOf value_error =
      Ensures-pure (IsOf render_token) (blocked (text "render_token:invalid") 50) refl
  token-IsOf type_error = Ensures-raise (IsOf render_token)
  token-IsOf (verified payload) =
      Ensures-if (IsOf render_token)
        (ltb (payload.render_time + ttl_of_context r c int key conf now ctx * second) now)
        (pure (blocked (text "render_token:expired") 50)) _
        (λ _. Ensures-pure (IsOf render_token) (blocked (text "render_token:expired") 50) refl)
        (λ _.
          Ensures-bind (IsOf render_token) (try_except (marker_exists r payload.nonce) (pure true))
            (λ present. pure (judge_marker r c int key conf now ctx payload present))
            λ present.
              Ensures-pure (IsOf render_token)
                (judge_marker r c int key conf now ctx payload present)
                (marker-IsOf payload present))

  render_token-IsOf : Ensures (IsOf render_token) (render_token_evaluate r c int key conf now ctx)
  unfolding render_token_evaluate
  render_token-IsOf =
      Ensures-if (IsOf render_token) (is_empty (field (text "waf_token") ctx))
        (pure (blocked (text "render_token:missing") 50))
        (judge_token r c int key conf now ctx (verify_token c key (field (text "waf_token") ctx)))
        (λ _. Ensures-pure (IsOf render_token) (blocked (text "render_token:missing") 50) refl)
        (λ _. token-IsOf (verify_token c key (field (text "waf_token") ctx)))

  honeypot-IsOf : IsOf honeypot (honeypot_evaluate c.sha256 conf ctx)
  honeypot-IsOf = elim (honeypot_evaluate-cases c.sha256 conf ctx) [
    | inl e ↦ rw e refl
    | inr (name, e) ↦ rw e refl
  ]

  delay-IsOf : (o : Option TokenPayload) → IsOf time_trap (judge_delay r c int key conf now ctx o)
  unfolding judge_delay
  delay-IsOf none = refl
  delay-IsOf (some payload) = ground arith

  user_agent-IsOf :
      (o : Option TokenPayload) → IsOf ua_consistency (judge_user_agent r c int key conf now ctx o)
  unfolding judge_user_agent
  user_agent-IsOf none = refl
  user_agent-IsOf (some payload) = ground arith

  js_touch-IsOf : IsOf js_touch (js_touch_evaluate r c int key conf now ctx)
  unfolding js_touch_evaluate
  js_touch-IsOf = ground arith

  pow_gate-IsOf : IsOf pow_gate (pow_gate_evaluate r c int key conf now ctx)
  unfolding pow_gate_evaluate
  pow_gate-IsOf = ground arith

  -- The body of the two throttles: `limit` and the reason are theirs.
  throttle-IsOf :
      (d : DefenceName) (count_of : Exec r.Server ℕ) (limit : ℕ) (reason : Text)
      → IsOf d (flagged 50 reason)
      → Ensures (IsOf d) (
          if is_empty ctx.request.ip
          then pure passed
          else try_except
              (count_of >>= λ count. pure (if leb limit count then flagged 50 reason else passed))
              (pure passed))
  throttle-IsOf d count_of limit reason h =
      Ensures-if (IsOf d) (is_empty ctx.request.ip) (pure passed) _
        (λ _. Ensures-pure (IsOf d) passed refl)
        (λ _.
          Ensures-try (IsOf d)
            (count_of >>= λ count. pure (if leb limit count then flagged 50 reason else passed))
            (pure passed)
            (Ensures-bind (IsOf d) count_of
              (λ count. pure (if leb limit count then flagged 50 reason else passed))
              λ count.
                Ensures-pure (IsOf d) (if leb limit count then flagged 50 reason else passed)
                  (ground (arith, h)))
            (Ensures-pure (IsOf d) passed refl))

  -- Whatever a defence is given and whatever Redis answers: an outcome that passes scores nothing
  -- and has no reason; one that does not has a score and a reason that starts with the defence's
  -- name and a colon; and only the render token, the honeypot, the time trap and the proof of work
  -- block.
  pub defence_evaluate-IsOf :
      (d : DefenceName) → Ensures (IsOf d) (defence_evaluate r c int key conf now ctx d)
  unfolding defence_evaluate credential_throttle_evaluate signup_velocity_evaluate
      time_trap_evaluate ua_consistency_evaluate
  defence_evaluate-IsOf render_token = render_token-IsOf
  defence_evaluate-IsOf honeypot = Ensures-pure (IsOf honeypot) _ honeypot-IsOf
  defence_evaluate-IsOf time_trap = Ensures-pure (IsOf time_trap) _ (delay-IsOf ctx.token_payload)
  defence_evaluate-IsOf ua_consistency =
      Ensures-pure (IsOf ua_consistency) _ (user_agent-IsOf ctx.token_payload)
  defence_evaluate-IsOf js_touch = Ensures-pure (IsOf js_touch) _ js_touch-IsOf
  defence_evaluate-IsOf credential_throttle =
      throttle-IsOf credential_throttle (credential_ip_count r int ctx.request.ip)
        (get_or ctx.config.ip_limit conf.credential_ip_limit) (text "credential_throttle:ip") refl
  defence_evaluate-IsOf signup_velocity =
      throttle-IsOf signup_velocity (signup_count r int ctx.request.ip)
        (get_or ctx.config.limit conf.signup_velocity_limit) (text "signup_velocity:ip") refl
  defence_evaluate-IsOf pow_gate = Ensures-pure (IsOf pow_gate) _ pow_gate-IsOf

  -- Of a payload's age the time trap makes this: it passes exactly from the form's minimum, and at
  -- the least half a second, to the maximum; it blocks exactly below half a second, a render time
  -- in the future included; and in between and beyond it flags.
  pub time_trap_evaluate_lem :
      (payload : TokenPayload)
      → ctx.token_payload ≡ some payload
      → ((is_pass (time_trap_evaluate r c int key conf now ctx) ≡ true) ↔ (
          (payload.render_time + 500000 ≤ now)
          × (payload.render_time + get_or ctx.config.min_fill conf.time_trap_min ≤ now)
          × (now ≤ payload.render_time + get_or ctx.config.max_fill conf.time_trap_max)))
        × ((is_block (time_trap_evaluate r c int key conf now ctx) ≡ true)
            ↔ (now < payload.render_time + 500000))
  unfolding time_trap_evaluate judge_delay
  time_trap_evaluate_lem payload e = rw e (ground arith)
