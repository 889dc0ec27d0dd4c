-- ===== src/Rules/Score.antt =====
-- services/rule_engine.py: the score of a path, and what a score or an action of a rule leads to.
use Prim.Native.Nat.{min}
use django_waf.Base.{
  ℕ, ◌+◌, ◌≤◌, ◌≡◌, Bool, false, Option, none, some, List, [], ◌∷◌, Text, leb, if◌then◌else◌, arith,
}
use django_waf.Rules.{
  RuleAction, block, challenge, throttle, log_only, other_action, Verdict, allowed, blocked,
  challenged, throttled, logged, Platform,
}

unfoldable pub action_to_verdict : RuleAction → Verdict
action_to_verdict block = blocked
action_to_verdict challenge = challenged
action_to_verdict throttle = throttled
action_to_verdict log_only = logged
action_to_verdict other_action = blocked

pub record ScoreConf : Type 0 where
  pub block_at : ℕ
  pub challenge_at : ℕ
  pub log_at : ℕ
  pub suspicious_paths : List Text
  pub suspicious_path_score : ℕ

module _ (conf : ScoreConf) where
  unfoldable pub score_to_verdict : ℕ → Verdict × Option RuleAction
  score_to_verdict score =
      if leb conf.block_at score
      then (blocked, some block)
      else if leb conf.challenge_at score
      then (challenged, some challenge)
      else if leb conf.log_at score
      then (logged, some log_only)
      else (allowed, none)

  -- How severe a verdict on a score is.
  abbrev pub severity : Verdict → ℕ
  severity blocked = 3
  severity challenged = 2
  severity logged = 1
  severity _ = 0

  -- A higher score has no milder verdict, whatever the thresholds are.
  pub score_to_verdict_mono :
      (low high : ℕ)
      → low ≤ high
      → severity (score_to_verdict low).0 ≤ severity (score_to_verdict high).0
  unfolding score_to_verdict
  score_to_verdict_mono low high h = ground arith

module _ (p : Platform) (conf : ScoreConf) where
  path_hit : Option p.Regex → Text → Bool
  path_hit none path = false
  path_hit (some compiled) path = p.search compiled path

  -- The loop with the score so far; a pattern that does not compile is passed over.
  score_from : Text → List Text → ℕ → ℕ
  score_from path [] score = score
  score_from path (pattern ∷ patterns) score =
      let next = score + conf.suspicious_path_score in
      let go_on = score_from path patterns next in
      let go_past = score_from path patterns score in
      if path_hit (p.compile pattern) path then if leb 100 next then 100 else go_on else go_past

  unfoldable pub score_path : Text → ℕ
  unfolding path_hit score_from
  score_path path = score_from path conf.suspicious_paths 0

  -- The patterns that the path shows, among a list of patterns.
  pub hits : Text → List Text → ℕ
  hits path [] = 0
  hits path (pattern ∷ patterns) =
      (if path_hit (p.compile pattern) path then conf.suspicious_path_score else 0)
      + hits path patterns

  score_from_lem :
      (path : Text) (patterns : List Text) (score : ℕ)
      → score ≤ 100
      → score_from path patterns score ≡ min 100 (score + hits path patterns)
  unfolding score_from hits
  score_from_lem path [] score h = omega arith
  score_from_lem path (pattern ∷ patterns) score h = ground (
    arith,
    score_from_lem path patterns (score + conf.suspicious_path_score),
    score_from_lem path patterns score,
  )

  -- The score of a path is the score of one pattern for every configured pattern that it shows, up
  -- to 10.0.
  pub score_path_lem : (path : Text) → score_path path ≡ min 100 (hits path conf.suspicious_paths)
  unfolding score_path
  score_path_lem path = omega (arith, score_from_lem path conf.suspicious_paths 0 (omega arith))
