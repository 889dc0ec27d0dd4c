-- ===== src/Forms/Defences/FreshToken.antt =====
-- The render token of a submission that is in time, unspent and from the same address.
use django_waf.Base.{
  ℕ, ◌+◌, ◌*◌, ◌≤◌, ◌≡◌, ◌≢◌, refl, Bool, true, false, Option, some, Text, text, is_empty, get_or,
  arith, inl, inr, Bool-cases, =ᵗ_refl, le→ltb_false,
}
use django_waf.Exec.{pure, try_except}
use django_waf.Exec.EnsuresAt.{EnsuresAt, EnsuresAt-pure, EnsuresAt-bind, EnsuresAt-try}
use django_waf.Redis.{Redis}
use django_waf.RateLimiter.{second}
use django_waf.Forms.Tokens.{Codec, TokenPayload, verified, verify_token}
use django_waf.Forms.Context.{FormConf, EvaluateContext}
use django_waf.Forms.Services.{marker_key, marker_exists}
use django_waf.Forms.Defences.{field, judge_marker, judge_token, render_token_evaluate}
use django_waf.Forms.Defences.Laws.{Passes}

abbrev IsTrue : Bool → Type 0
IsTrue b = b ≡ true

module _ (r : Redis) (c : Codec) (int : Text → Option ℕ) (key : Text) (conf : FormConf) (now : ℕ)
    (ctx : EvaluateContext) where
  present-IsTrue :
      (nonce : Text) (s : r.Server)
      → (r.exists (marker_key nonce) s).0 ≢ some false
      → EnsuresAt s (λ b t. IsTrue b) (try_except (marker_exists r nonce) (pure true))
  unfolding marker_exists
  present-IsTrue nonce s unused =
      EnsuresAt-try s IsTrue (marker_exists r nonce) true
        (record {
          at = λ b e. elim (Bool-cases b) [ inl is ↦ is | inr is ↦ absurd (unused (rw is at e)) ];
        })
        refl

  pub render_token-Passes :
      (payload : TokenPayload) (s : r.Server)
      → is_empty (field (text "waf_token") ctx) ≡ false
      → verify_token c key (field (text "waf_token") ctx) ≡ verified payload
      → now ≤ payload.render_time + get_or ctx.config.token_ttl conf.token_ttl * second
      → payload.ip ≡ ctx.request.ip
      → (r.exists (marker_key payload.nonce) s).0 ≢ some false
      → EnsuresAt s (λ o t. Passes o) (render_token_evaluate r c int key conf now ctx)
  unfolding render_token_evaluate judge_token judge_marker
  render_token-Passes payload s given valid in_time same_ip unused =
      simp
        (
          given,
          valid,
          le→ltb_false (payload.render_time + get_or ctx.config.token_ttl conf.token_ttl * second)
              now in_time,
        )
        (EnsuresAt-bind _ s (λ b t. IsTrue b)
          (try_except (marker_exists r payload.nonce) (pure true))
          (λ present. pure (judge_marker r c int key conf now ctx payload present))
          (present-IsTrue payload.nonce s unused)
          λ present t e.
            EnsuresAt-pure t _ (judge_marker r c int key conf now ctx payload present)
              (simp (e, same_ip, =ᵗ_refl) (ground arith)))
