-- ===== src/Examples/Forms/Chain.antt =====
-- Examples for the defences of a form, their chain, and the view that it protects.
use django_waf.Base.{
  ◌≤◌, false, any, All, ◌≡◌, refl, true, none, some, List, [], ◌∷◌, Text, text, length, arith,
  rsplit_once-delimiter, In,
}
use django_waf.Forms.Context.{is_block, is_pass, blocked}
use django_waf.Forms.Defences.{render_token_evaluate}
use django_waf.Forms.Context.{Outcome}
use django_waf.Forms.Logging.{LogConf, submission_blocked, dispatch_signal}
use django_waf.Forms.Logging.Blocked.{blocked-culprit}
use django_waf.Forms.Protection.{FormEvaluationResult, blocked_form, aggregate_score}
use django_waf.Exec.Ensures.{Ensures}
use django_waf.Redis.{Redis}
use django_waf.Forms.Tokens.{Codec, bar, type_error, verify_token}
use django_waf.Forms.Tokens.Laws.{verify-type_error}
use django_waf.Forms.Defences.{DefenceName, honeypot, time_trap, js_touch, defence_evaluate}
use django_waf.Forms.Protection.{names_for, evaluate}
use django_waf.Forms.Protection.Verdict.{Judged, evaluate-Judged}
use django_waf.Forms.Protection.Returns.{evaluate-raises}
use django_waf.Examples.Memory.{memory, empty_memory}
use django_waf.Examples.Forms.{
  codec, signing_key, visitor, form_conf, contact_form, sent_fields, submit_time, read_time,
}

-- A Redis that holds every marker and has counted nothing.
abbrev quiet : Redis
quiet = record memory { exists = λ k s. (some true, s); get = λ k s. (some none, s) }

abbrev now_names : List DefenceName
now_names = honeypot ∷ time_trap ∷ js_touch ∷ []

evaluate-Judged_example :
    Ensures (Judged form_conf contact_form (length (names_for form_conf contact_form visitor))) (
      evaluate form_conf contact_form memory codec read_time signing_key submit_time visitor
        sent_fields)
evaluate-Judged_example =
    evaluate-Judged form_conf contact_form memory codec read_time signing_key submit_time visitor
      sent_fields refl

-- A codec that reads every token as one with a signature that is not ASCII.
abbrev odd_codec : Codec
odd_codec = record codec { b64decode = λ t. some (b'a' ∷ bar ∷ 200 ∷ []) }

odd_raises : verify_token odd_codec signing_key (text "zz") ≡ type_error
odd_raises =
    (verify-type_error odd_codec signing_key (text "zz") (b'a' ∷ bar ∷ 200 ∷ []) (text "a")
        (200 ∷ []) refl (rsplit_once-delimiter bar (text "a") (200 ∷ []) (omega arith, tt))).1
      refl

abbrev odd_fields : List (Text × Text)
odd_fields = (text "waf_token", text "zz") ∷ []

evaluate-raises_example :
    (evaluate form_conf contact_form memory odd_codec read_time signing_key submit_time visitor
      odd_fields empty_memory).0
    ≡ none
evaluate-raises_example =
    evaluate-raises form_conf contact_form memory odd_codec read_time signing_key submit_time
      visitor odd_fields now_names empty_memory refl refl refl odd_raises

-- A submission without a token.
abbrev no_token : FormEvaluationResult
no_token = record {
  verdict = blocked_form;
  total_score = 50;
  outcomes = blocked (text "render_token:missing") 50 ∷ [];
  token_payload = none;
}

token_is_missing :
    (evaluate form_conf contact_form memory codec read_time signing_key submit_time visitor []
      empty_memory).0
    ≡ some no_token
unfolding evaluate defence_evaluate render_token_evaluate aggregate_score
token_is_missing = refl

abbrev every_log : LogConf
every_log = record { sampled_out = false; emit_passed_signal = false }

blocked-culprit_example :
    (o : Outcome) × In o no_token.outcomes
    × (is_pass o ≡ false)
    × (dispatch_signal every_log no_token
        ≡ submission_blocked no_token.total_score no_token.outcomes o.reason ∷ [])
    × (is_block o ≡ any is_block no_token.outcomes)
    × (any is_block no_token.outcomes ≡ false → All (λ q. q.score ≤ o.score) no_token.outcomes)
blocked-culprit_example =
    blocked-culprit every_log form_conf contact_form memory codec read_time signing_key submit_time
      visitor [] empty_memory no_token refl (omega arith) token_is_missing refl
