-- ===== src/Forms/Decorator/Replayed.antt =====
-- A flagged submission is replayed once.
use django_waf.Base.{
  ℕ, ◌/◌, ◌≡◌, ◌∙◌, refl, ap, Option, none, some, Text, ◌=ᵗ◌, Bool-cases, inl, inr,
}
use django_waf.Exec.{Exec}
use django_waf.Redis.{Redis}
use django_waf.RateLimiter.{second}
use django_waf.Forms.Tokens.{Codec}
use django_waf.Forms.Context.{FormConf}
use django_waf.Forms.Protection.{FormProtection}
use django_waf.Forms.Replay.{ReplayCodec, ReplayPayload, replayable, verify_replay_token}
use django_waf.Forms.Replay.Stash.{ReplayRecord, fetch_from_session, discard_from_session}
use django_waf.Forms.Replay.Stash.Bounds.{fetch-discard}
use django_waf.Forms.Decorator.{
  QueryDict, PostRequest, DecoratorConf, FormWorld, take_record, replay_checked, try_replay,
}

module _ (r : Redis) (c : Codec) (rc : ReplayCodec) (int : Text → Option ℕ) (key : Text)
    (conf : FormConf) (dconf : DecoratorConf) (form : FormProtection)
    (view : QueryDict → Exec (FormWorld r) (Unit {0})) where
  taken_lem :
      (req post : PostRequest) (session_key : Text) (now : ℕ) (fresh_key : Text)
      (o : Option ReplayRecord) (w : FormWorld r)
      → (take_record r c rc int key conf dconf form view now fresh_key req session_key o w).0
        ≡ some (some post)
      → (take_record r c rc int key conf dconf form view now fresh_key req session_key o w).1
        ≡ record w { session = discard_from_session session_key w.session }
  unfolding take_record
  taken_lem req post session_key now fresh_key none w e = absurd (let no : ⊥ = cc in no)
  taken_lem req post session_key now fresh_key (some rec) w e =
      elim (Bool-cases (rec.form_id =ᵗ form.form_id)) [
        | inl h ↦ rw h refl
        | inr h ↦ absurd (let no : ⊥ = cc (rw h at e) in no)
      ]

  replayed_lem :
      (req post : PostRequest) (p : ReplayPayload) (now : ℕ) (fresh_key : Text) (w : FormWorld r)
      → verify_replay_token rc req.request.ip (now / second) req.form_replay ≡ replayable p
      → (try_replay r c rc int key conf dconf form view now fresh_key req w).0 ≡ some (some post)
      → (try_replay r c rc int key conf dconf form view now fresh_key req w).1.session
        ≡ discard_from_session p.session_key w.session
  unfolding try_replay replay_checked
  replayed_lem req post p now fresh_key w valid e = elim (Bool-cases (p.form_id =ᵗ form.form_id)) [
    | inl h ↦
        rw (valid, h)
          (ap (λ v. v.session)
            (taken_lem req post p.session_key now fresh_key
              (fetch_from_session p.session_key (now / second) w.session) w (rw (valid, h) at e)))
    | inr h ↦ absurd (let no : ⊥ = cc (rw (valid, h) at e) in no)
  ]

  nothing_left :
      (req : PostRequest) (p : ReplayPayload) (now : ℕ) (fresh_key : Text) (w : FormWorld r)
      → verify_replay_token rc req.request.ip (now / second) req.form_replay ≡ replayable p
      → fetch_from_session p.session_key (now / second) w.session ≡ none
      → (try_replay r c rc int key conf dconf form view now fresh_key req w).0 ≡ some none
  unfolding try_replay replay_checked take_record
  nothing_left req p now fresh_key w valid gone = elim (Bool-cases (p.form_id =ᵗ form.form_id)) [
    | inl h ↦ simp (valid, h, gone) refl
    | inr h ↦ simp (valid, h) refl
  ]

  -- After a replay token has brought back a submission, no token for the same record of the session
  -- brings one back, at whatever time, from whatever address and whatever Redis holds.
  pub try_replay-once :
      (req again post : PostRequest) (p p' : ReplayPayload) (now later : ℕ)
      (fresh_key fresh_key' : Text) (w : FormWorld r) (s : r.Server)
      → verify_replay_token rc req.request.ip (now / second) req.form_replay ≡ replayable p
      → verify_replay_token rc again.request.ip (later / second) again.form_replay ≡ replayable p'
      → p'.session_key ≡ p.session_key
      → (try_replay r c rc int key conf dconf form view now fresh_key req w).0 ≡ some (some post)
      → (try_replay r c rc int key conf dconf form view later fresh_key' again
          (record (try_replay r c rc int key conf dconf form view now fresh_key req w).1 {
            server = s;
          })).0
        ≡ some none
  try_replay-once req again post p p' now later fresh_key fresh_key' w s valid valid' same
        replayed =
      let after : FormWorld r =
        record (try_replay r c rc int key conf dconf form view now fresh_key req w).1 {
          server = s;
        } in
      let gone : fetch_from_session p.session_key (later / second) after.session ≡ none =
        ap (fetch_from_session p.session_key (later / second))
          (replayed_lem req post p now fresh_key w valid replayed)
        ∙ fetch-discard p.session_key (later / second) w.session in
      nothing_left again p' later fresh_key' after valid' (rw same gone)
