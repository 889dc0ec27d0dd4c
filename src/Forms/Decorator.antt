-- ===== src/Forms/Decorator.antt =====
-- forms/decorators.py: a view whose POST requests run through the chain, and the replay of a flagged
-- submission after a challenge.
--
-- `view` is the view function, which may raise and change Redis and the session. A submission is a
-- QueryDict: each name with the list of its values. The debug header is left out, as is the attribute
-- of the request that lets the view read the result. The redirect to the challenge carries the path
-- and the replay token; that the address of the challenge cannot be reversed is the `none` of
-- `challenge_url`. `fresh_key` is the random one. A TypeError of the replay token's check leaves the
-- wrapper, as an exception of the view does.
pub mod OneUse
pub mod Replayed
use django_waf.Base.{
  ℕ, ◌/◌, Bool, true, false, not, ◌||◌, Option, none, some, List, [], ◌∷◌, ◌++◌, Text,
  if◌then◌else◌, is_empty, ◌=ᵗ◌, map,
}
use django_waf.Exec.{Exec, pure, raise, ◌>>=◌, ◌>>◌}
use django_waf.Redis.{Redis}
use django_waf.RateLimiter.{second}
use django_waf.Forms.Tokens.{Codec, TokenPayload}
use django_waf.Forms.Context.{FormRequest, FormConf}
use django_waf.Forms.Protection.{
  FormVerdict, passed_form, flagged_form, blocked_form, FormEvaluationResult, FormProtection,
  evaluate, consume_token_marker,
}
use django_waf.Forms.Logging.{LogConf, SubmissionEntry, FormSignal, log_form_submission}
use django_waf.Forms.Replay.{
  ReplayCodec, ReplayPayload, ReplayCheck, replayable, unavailable, type_error, issue_replay_token,
  verify_replay_token,
}
use django_waf.Forms.Replay.Stash.{
  ReplayRecord, Session, store_in_session, fetch_from_session, discard_from_session,
}

abbrev pub QueryDict : Type 0
QueryDict = List (Text × List Text)

-- `QueryDict.__getitem__`: the last value. For an empty list Django gives an empty list, which is
-- as falsy as the empty text that stands for it here.
abbrev last_value : List Text → Text
last_value [] = []
last_value (v ∷ vs) = elim vs [ [] ↦ v | _ ∷ _ ↦ last_value vs ]

abbrev pub scalarise_submitted_data : QueryDict → List (Text × Text)
scalarise_submitted_data post = map (λ entry. (entry.0, last_value entry.1)) post

abbrev to_query_dict : List (Text × Text) → QueryDict
to_query_dict fields = map (λ entry. (entry.0, entry.1 ∷ [])) fields

pub data Method : Type 0 where
  get_method post_method other_method : Method

pub record PostRequest : Type 0 where
  pub method : Method
  pub request : FormRequest
  pub path : Text
  -- `request.GET.get("form_replay")`, "" if it is absent
  pub form_replay : Text
  pub post : QueryDict

pub data FormResponse : Type 0 where
  rejected : FormResponse
  challenge : (url next replay_token : Text) → FormResponse
  viewed : FormResponse

pub record DecoratorConf : Type 0 where
  pub challenge_on_flag : Bool
  pub challenge_url : Option Text
  pub log : LogConf

module _ (r : Redis) where
  pub record FormWorld : Type 0 where
    pub server : r.Server
    pub session : Session
    pub logged : List SubmissionEntry
    pub sent : List FormSignal

module _ (r : Redis) (c : Codec) (rc : ReplayCodec) (int : Text → Option ℕ) (key : Text)
    (conf : FormConf) (dconf : DecoratorConf) (form : FormProtection)
    (view : QueryDict → Exec (FormWorld r) (Unit {0})) (now : ℕ) (fresh_key : Text) where
  abbrev pub on_server : {A : Type 0} → Exec r.Server A → Exec (FormWorld r) A
  on_server m w = let (a, server) = m w.server in (a, record w { server = server })

  redirect_with : PostRequest → Option Text → Option Text → Exec (FormWorld r) (Option FormResponse)
  redirect_with req none url = pure none
  redirect_with req (some session_key) none = raise
  redirect_with req (some session_key) (some url) = pure (
      some (
        challenge url req.path
          (issue_replay_token rc form.form_id req.request.ip session_key (now / second))))

  stash_submission : PostRequest → Exec (FormWorld r) (Option Text)
  stash_submission req w =
      let (stored, kept) =
        store_in_session fresh_key form.form_id req.path (scalarise_submitted_data req.post)
          (now / second) w.session in
      (some stored, record w { session = kept })

  maybe_redirect_to_challenge : PostRequest → Exec (FormWorld r) (Option FormResponse)
  unfolding redirect_with stash_submission
  maybe_redirect_to_challenge req =
      if not dconf.challenge_on_flag
      then pure none
      else stash_submission req >>= λ stored. redirect_with req stored dconf.challenge_url

  consume_if_passed : FormEvaluationResult → Exec (FormWorld r) (Unit {0})
  consume_if_passed res = elim res.verdict [
    | passed_form ↦ on_server (consume_token_marker r res.token_payload)
    | flagged_form ↦ pure tt
    | blocked_form ↦ pure tt
  ]

  run_view : PostRequest → FormEvaluationResult → Exec (FormWorld r) FormResponse
  unfolding consume_if_passed
  run_view req res = view req.post >> consume_if_passed res >> pure viewed

  -- A flagged submission that is not sent to the challenge goes to the view.
  or_view :
      PostRequest → FormEvaluationResult → Option FormResponse → Exec (FormWorld r) FormResponse
  or_view req res none = run_view req res
  or_view req res (some response) = pure response

  dispatch_verdict : PostRequest → FormEvaluationResult → Exec (FormWorld r) FormResponse
  unfolding maybe_redirect_to_challenge run_view or_view
  dispatch_verdict req res = elim res.verdict [
    | blocked_form ↦ pure rejected
    | flagged_form ↦ maybe_redirect_to_challenge req >>= or_view req res
    | passed_form ↦ run_view req res
  ]

  abbrev pub evaluate_post : PostRequest → Exec (FormWorld r) FormEvaluationResult
  evaluate_post req =
      on_server (evaluate conf form r c int key now req.request (scalarise_submitted_data req.post))

  abbrev pub log_result : PostRequest → FormEvaluationResult → Exec (FormWorld r) (Unit {0})
  log_result req res w =
      let (entries, signals) = log_form_submission dconf.log req.request res in
      (some tt, record w { logged = entries ++ w.logged; sent = signals ++ w.sent })

  unfoldable pub handle_post : PostRequest → Exec (FormWorld r) FormResponse
  unfolding dispatch_verdict
  handle_post req = evaluate_post req >>= λ res. log_result req res >> dispatch_verdict req res

  as_post : PostRequest → ReplayRecord → PostRequest
  as_post req rec = record req { method = post_method; post = to_query_dict rec.fields }

  -- The record must be of this form; it is discarded.
  take_record : PostRequest → Text → Option ReplayRecord → Exec (FormWorld r) (Option PostRequest)
  unfolding as_post
  take_record req session_key none w = (some none, w)
  take_record req session_key (some rec) w =
      if not (rec.form_id =ᵗ form.form_id) then (some none, w) else (
        some (some (as_post req rec)),
        record w { session = discard_from_session session_key w.session },
      )

  replay_checked : PostRequest → ReplayCheck → Exec (FormWorld r) (Option PostRequest)
  unfolding take_record
  replay_checked req unavailable w = (some none, w)
  replay_checked req type_error w = (none, w)
  replay_checked req (replayable p) w =
      if not (p.form_id =ᵗ form.form_id)
      then (some none, w)
      else take_record req p.session_key (fetch_from_session p.session_key (now / second) w.session)
          w

  unfoldable pub try_replay : PostRequest → Exec (FormWorld r) (Option PostRequest)
  unfolding replay_checked
  try_replay req w =
      replay_checked req (verify_replay_token rc req.request.ip (now / second) req.form_replay) w

  view_or_post : PostRequest → Exec (FormWorld r) FormResponse
  view_or_post req = elim req.method [
    | post_method ↦ handle_post req
    | get_method ↦ view req.post >> pure viewed
    | other_method ↦ view req.post >> pure viewed
  ]

  replayed_or : PostRequest → Option PostRequest → Exec (FormWorld r) FormResponse
  unfolding view_or_post
  replayed_or req none = view_or_post req
  replayed_or req (some replayed) = handle_post replayed

  -- The wrapper that the decorator makes of a view.
  unfoldable pub wrapper : PostRequest → Exec (FormWorld r) FormResponse
  unfolding view_or_post replayed_or
  wrapper req = elim req.method [
    | get_method ↦
        if is_empty req.form_replay then view_or_post req else try_replay req >>= replayed_or req
    | post_method ↦ view_or_post req
    | other_method ↦ view_or_post req
  ]
