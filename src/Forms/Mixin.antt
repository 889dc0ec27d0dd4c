-- ===== src/Forms/Mixin.antt =====
-- forms/mixin.py: a Django form whose validation runs the chain.
--
-- `super_clean` is the validation of the form's other base classes, which may raise its own
-- ValidationError; `log` is what `log_form_submission` does, which raises nothing.
use django_waf.Base.{ℕ, Option, some, List, ◌++◌, Text}
use django_waf.Exec.{Exec, pure, ◌>>=◌, ◌>>◌}
use django_waf.Redis.{Redis}
use django_waf.Forms.Tokens.{Codec}
use django_waf.Forms.Context.{FormRequest, FormConf}
use django_waf.Forms.Protection.{
  passed_form, flagged_form, blocked_form, FormEvaluationResult, FormProtection, evaluate,
  consume_token_marker,
}
use django_waf.Forms.Logging.{LogConf, SubmissionEntry, FormSignal, log_form_submission}
use django_waf.Forms.Decorator.{QueryDict, scalarise_submitted_data}

-- The two ways in which `clean` ends without another exception.
pub data Cleaned : Type 0 where
  cleaned waf_blocked : Cleaned

module _ (r : Redis) where
  pub record MixinWorld : Type 0 where
    pub server : r.Server
    pub waf_result : Option FormEvaluationResult
    pub logged : List SubmissionEntry
    pub sent : List FormSignal

module _ (r : Redis) (c : Codec) (int : Text → Option ℕ) (key : Text) (conf : FormConf)
    (log_conf : LogConf) (waf : FormProtection) (super_clean : Exec (MixinWorld r) (Unit {0}))
    (now : ℕ) (request : FormRequest) (fields : QueryDict) where
  abbrev on_server : {A : Type 0} → Exec r.Server A → Exec (MixinWorld r) A
  on_server m w = let (a, server) = m w.server in (a, record w { server = server })

  keep_result : FormEvaluationResult → Exec (MixinWorld r) (Unit {0})
  keep_result res w =
      let (entries, signals) = log_form_submission log_conf request res in
      (
        some tt,
        record w { waf_result = some res; logged = entries ++ w.logged; sent = signals ++ w.sent },
      )

  end_with : FormEvaluationResult → Exec (MixinWorld r) Cleaned
  end_with res = elim res.verdict [
    | passed_form ↦ on_server (consume_token_marker r res.token_payload) >> pure cleaned
    | flagged_form ↦ pure cleaned
    | blocked_form ↦ pure waf_blocked
  ]

  unfoldable pub clean : Exec (MixinWorld r) Cleaned
  unfolding keep_result end_with
  clean =
      super_clean
      >> (on_server (evaluate conf waf r c int key now request (scalarise_submitted_data fields))
          >>= λ res. keep_result res >> end_with res)
