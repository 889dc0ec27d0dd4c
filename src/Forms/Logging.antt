-- ===== src/Forms/Logging.antt =====
-- forms/logging.py: the log entry and the signal of a submission.
--
-- A receiver that raises is caught, so only what is sent is kept. `sampled_out` says that the random
-- number is at least the sample rate. The entry's form, address and user are the request's own.
pub mod Culprit
pub mod Blocked
use django_waf.Base.{
  ℕ, Bool, true, false, not, ◌&&◌, Option, none, some, List, [], ◌∷◌, Text, ltb, if◌then◌else◌,
  is_empty, map, get_or, partition,
}
use django_waf.Forms.Context.{Outcome, is_block, FormRequest, FormUser}
use django_waf.Forms.Protection.{
  FormVerdict, passed_form, flagged_form, blocked_form, FormEvaluationResult,
}

pub record LogConf : Type 0 where
  pub sampled_out : Bool
  pub emit_passed_signal : Bool

pub data LogLevel : Type 0 where
  info warning : LogLevel

pub record SubmissionEntry : Type 0 where
  pub level : LogLevel
  pub verdict : FormVerdict
  pub user_id : Option Text
  pub total_score : ℕ
  -- each outcome with the name in its reason
  pub defences : List (Text × Outcome)

pub data FormSignal : Type 0 where
  submission_passed : FormSignal
  submission_flagged : (total_score : ℕ) (outcomes : List Outcome) → FormSignal
  submission_blocked : (total_score : ℕ) (outcomes : List Outcome) (reason : Text) → FormSignal

-- `reason.split(":", 1)[0]`
before_colon : Text → Option (Text × Text) → Text
before_colon reason none = reason
before_colon reason (some (name, detail)) = name

name_from_reason : Text → Text
unfolding before_colon
name_from_reason reason = before_colon reason (partition b':' reason)

user_of : Option FormUser → Option Text
user_of none = none
user_of (some user) = if user.is_authenticated then some (get_or user.pk []) else none

first_block_reason : List Outcome → Text
first_block_reason [] = []
first_block_reason (o ∷ outcomes) =
    let rest = first_block_reason outcomes in if is_block o then o.reason else rest

-- `max(outcomes, key=…)`: the first of the highest scores, with the best so far.
worst_from : Outcome → List Outcome → Outcome
worst_from best [] = best
worst_from best (o ∷ outcomes) = worst_from (if ltb best.score o.score then o else best) outcomes

or_worst : Text → List Outcome → Text
or_worst reason [] = reason
or_worst reason (o ∷ outcomes) = if is_empty reason then (worst_from o outcomes).reason else reason

unfoldable pub representative_reason : List Outcome → Text
unfolding first_block_reason worst_from or_worst
representative_reason outcomes = or_worst (first_block_reason outcomes) outcomes

module _ (conf : LogConf) where
  passed_signal : List FormSignal
  passed_signal = if conf.emit_passed_signal then submission_passed ∷ [] else []

  unfoldable pub dispatch_signal : FormEvaluationResult → List FormSignal
  unfolding passed_signal
  dispatch_signal res = elim res.verdict [
    | passed_form ↦ passed_signal
    | flagged_form ↦ submission_flagged res.total_score res.outcomes ∷ []
    | blocked_form ↦
        submission_blocked res.total_score res.outcomes (representative_reason res.outcomes) ∷ []
  ]

  level_of : FormVerdict → LogLevel
  level_of blocked_form = warning
  level_of flagged_form = info
  level_of passed_form = info

  is_dropped : FormVerdict → Bool
  is_dropped passed_form = conf.sampled_out
  is_dropped flagged_form = false
  is_dropped blocked_form = false

  unfoldable pub log_form_submission :
      FormRequest → FormEvaluationResult → List SubmissionEntry × List FormSignal
  unfolding level_of is_dropped before_colon name_from_reason user_of passed_signal
  log_form_submission request res = if is_dropped res.verdict then ([], passed_signal) else (
    record {
      level = level_of res.verdict;
      verdict = res.verdict;
      user_id = user_of request.user;
      total_score = res.total_score;
      defences = map (λ o. (name_from_reason o.reason, o)) res.outcomes;
    }
        ∷ [],
    dispatch_signal res,
  )
