-- ===== src/Forms/Protection.antt =====
-- forms/protection.py: the chain of a form's defences and its verdict.
--
-- A form's keyword arguments stand in `per_form_config`; a request's submitted data is a dictionary
-- of one text for each name. `parse_submitted_payload` is that of forms/defences/render_token.py.
-- What is only logged has no place here.
pub mod Order
pub mod Verdict
pub mod Returns
pub mod Payload
pub mod Honest
pub mod Outcomes
use django_waf.Base.{
  ℕ, ◌+◌, Bool, true, false, not, ◌&&◌, Option, none, some, List, [], ◌∷◌, ◌++◌, Text, text, leb,
  if◌then◌else◌, is_empty, ◌=ᵗ◌, any, keep_if, get_or, lookup,
}
use django_waf.Exec.{Exec, pure, raise, try_except, return_found, ◌>>=◌}
use django_waf.Redis.{Redis}
use django_waf.Forms.Tokens.{
  Codec, TokenPayload, Verified, verified, value_error, type_error, verify_token,
}
use django_waf.Forms.Context.{
  Outcome, passed, is_block, is_pass, FormUser, FormRequest, FormConf, Config, EvaluateContext,
}
use django_waf.Forms.Services.{consume_marker}
use django_waf.Forms.Defences.{
  DefenceName, render_token, honeypot, time_trap, ua_consistency, js_touch, credential_throttle,
  signup_velocity, pow_gate, name_text, defence_evaluate,
}

pub data FormVerdict : Type 0 where
  passed_form flagged_form blocked_form : FormVerdict

pub record FormEvaluationResult : Type 0 where
  pub verdict : FormVerdict
  pub total_score : ℕ
  pub outcomes : List Outcome
  pub token_payload : Option TokenPayload

abbrev pub canonical_order : List DefenceName
canonical_order =
    render_token ∷ honeypot ∷ time_trap ∷ ua_consistency ∷ js_touch ∷ credential_throttle
    ∷ signup_velocity ∷ pow_gate ∷ []

abbrev pub has_name : List Text → DefenceName → Bool
has_name names d = any (λ n. n =ᵗ name_text d) names

unfoldable pub order_defences : List Text → List DefenceName
order_defences names = keep_if (has_name names) canonical_order

pub record FormProtection : Type 0 where
  pub form_id : Text
  pub defence_names : List DefenceName
  pub weights : List (Text × ℕ)
  pub skip_for_authenticated : Bool
  pub per_form_config : Config

abbrev pub is_known : Text → Bool
is_known n = any (λ d. n =ᵗ name_text d) canonical_order

abbrev pub with_names : Text → List Text → List (Text × ℕ) → Bool → Config → FormProtection
with_names form_id defences defence_weights skip per_form_config = record {
  form_id = form_id;
  defence_names = order_defences defences;
  weights = defence_weights;
  skip_for_authenticated = skip;
  per_form_config = per_form_config;
}

-- The constructor, which raises a ValueError for a name that it does not know.
unfoldable pub form_protection :
    Text → List Text → List (Text × ℕ) → Bool → Config → Option FormProtection
form_protection form_id defences defence_weights skip per_form_config =
    let unknown : List Text = keep_if (λ n. not (is_known n)) defences in
    elim unknown [
      | [] ↦ some (with_names form_id defences defence_weights skip per_form_config)
      | _ ∷ _ ↦ none
    ]

module _ (conf : FormConf) (form : FormProtection) where
  -- The form's own weights, over those of the settings.
  own_or : Text → Option ℕ → Option ℕ
  own_or name none = lookup name conf.defence_weights
  own_or name (some weight) = some weight

  contribution : Outcome → DefenceName → ℕ
  unfolding own_or
  contribution o d =
      if is_pass o
      then 0
      else get_or (own_or (name_text d) (lookup (name_text d) form.weights)) o.score

  -- The outcomes are paired with all the names of the form, up to the shorter list.
  zip_scores : List Outcome → List DefenceName → ℕ
  unfolding contribution
  zip_scores [] names = 0
  zip_scores (o ∷ outcomes) [] = 0
  zip_scores (o ∷ outcomes) (d ∷ names) = contribution o d + zip_scores outcomes names

  unfoldable pub aggregate_score : List Outcome → ℕ
  unfolding zip_scores
  aggregate_score outcomes = zip_scores outcomes form.defence_names

  unfoldable pub resolve_verdict : ℕ → FormVerdict
  resolve_verdict total_score =
      if leb conf.block_threshold total_score
      then blocked_form
      else if leb conf.flag_threshold total_score
      then flagged_form
      else passed_form

  abbrev pub user_is_authenticated : Option FormUser → Bool
  user_is_authenticated none = false
  user_is_authenticated (some user) = user.is_authenticated

  abbrev pub is_render_token : DefenceName → Bool
  is_render_token render_token = true
  is_render_token _ = false

  -- The names that run for this request.
  abbrev pub names_for : FormRequest → List DefenceName
  names_for request =
      if form.skip_for_authenticated && user_is_authenticated request.user
      then keep_if is_render_token form.defence_names
      else form.defence_names

  abbrev pub config_for : Option TokenPayload → Config
  config_for none = form.per_form_config
  config_for (some payload) = record form.per_form_config { token_nonce = some payload.nonce }

  module _ (r : Redis) (c : Codec) (int : Text → Option ℕ) (key : Text) (now : ℕ)
      (request : FormRequest) (submitted_data : List (Text × Text)) where
    abbrev pub submitted_token : Text
    submitted_token = get_or (lookup (text "waf_token") submitted_data) []

    parsed : Verified TokenPayload → Exec r.Server (Option TokenPayload)
    parsed value_error = pure none
    parsed (verified payload) = pure (some payload)
    parsed type_error = raise

    parse_submitted_payload : Exec r.Server (Option TokenPayload)
    unfolding parsed
    parse_submitted_payload =
        if is_empty submitted_token then pure none else parsed (verify_token c key submitted_token)

    abbrev pub context_for : Option TokenPayload → EvaluateContext
    context_for payload = record {
      form_id = form.form_id;
      request = request;
      submitted_data = submitted_data;
      config = config_for payload;
      token_payload = payload;
    }

    -- A defence that raises counts as passed.
    run_defence : DefenceName → Option TokenPayload → Exec r.Server Outcome
    run_defence d payload =
        try_except (defence_evaluate r c int key conf now (context_for payload) d) (pure passed)

    pub payload_after : DefenceName → Option TokenPayload → Exec r.Server (Option TokenPayload)
    payload_after render_token none = parse_submitted_payload
    payload_after _ payload = pure payload

    result_of : FormVerdict → Option TokenPayload → List Outcome → FormEvaluationResult
    result_of verdict payload outcomes = record {
      verdict = verdict;
      total_score = aggregate_score outcomes;
      outcomes = outcomes;
      token_payload = payload;
    }

    blocked_now : Option TokenPayload → List Outcome → Outcome → Option FormEvaluationResult
    unfolding result_of
    blocked_now payload outcomes o =
        if is_block o then some (result_of blocked_form payload outcomes) else none

    -- The loop over the names, with the outcomes so far.
    chain :
        List DefenceName → Option TokenPayload → List Outcome → Exec r.Server FormEvaluationResult
    unfolding parse_submitted_payload run_defence payload_after result_of blocked_now
    chain [] payload outcomes =
        pure (result_of (resolve_verdict (aggregate_score outcomes)) payload outcomes)
    chain (d ∷ names) payload outcomes = run_defence d payload >>= λ o.
        return_found
          (payload_after d payload >>= λ payload'. chain names payload' (outcomes ++ o ∷ []))
          (blocked_now payload (outcomes ++ o ∷ []) o)

    unfoldable pub evaluate : Exec r.Server FormEvaluationResult
    unfolding chain
    evaluate =
        if conf.protection_enabled
        then chain (names_for request) none []
        else pure
            (record { verdict = passed_form; total_score = 0; outcomes = []; token_payload = none })

module _ (r : Redis) where
  unfoldable pub consume_token_marker : Option TokenPayload → Exec r.Server (Unit {0})
  consume_token_marker none = pure tt
  consume_token_marker (some payload) = try_except (consume_marker r payload.nonce) (pure tt)
