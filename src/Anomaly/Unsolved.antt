-- ===== src/Anomaly/Unsolved.antt =====
-- services/anomaly_detector.py: `detect_unsolved_challenges` with
-- `_detect_unsolved_challenges_per_ip` and `_detect_unsolved_challenges_by_subnet`.
pub mod Staged
use django_waf.Base.{
  ℕ, ◌-◌, ◌*◌, Bool, true, false, not, ◌&&◌, ◌||◌, Option, none, some, List, [], ◌∷◌, ◌++◌, Text,
  text, ◌=ᵗ◌, ◌==◌, leb, ltb, if◌then◌else◌, keep_if, map, any, length, get_or, split,
}
use django_waf.Exec.{Exec, pure, ◌>>=◌}
use django_waf.Rules.{
  Verdict, challenged, ip, exact, cidr, cidr_match, RuleAction, block, challenge,
}
use django_waf.Anomaly.{
  BlockRuleRow, Table, RequestLog, RequestLogSource, middleware, nginx_log, SolvedToken, Lookup,
  auto, matching, unsolved_challenge,
}
use django_waf.Anomaly.Confidence.{scaled_confidence}
use django_waf.Anomaly.Store.{Orm, AnomalyConf, Proposal, Run, Store, first}
use django_waf.Anomaly.Flags.{flag_each}
use django_waf.Anomaly.Evidence.{
  Python, Observed, DetectorConf, whole, rounded, minutes, hours, logs_since, distinct, is_among,
  evidence_notes, has_no_referer,
}
use django_waf.Anomaly.SubnetBurst.{get_subnet_prefix, count_subnets}

abbrev pub detector : Text
detector = text "detect_unsolved_challenges"

abbrev is_challenged : Verdict → Bool
is_challenged challenged = true
is_challenged _ = false

abbrev is_middleware : RequestLogSource → Bool
is_middleware middleware = true
is_middleware nginx_log = false

abbrev of_address : Text → RequestLog → Bool
of_address address log = log.ip_address =ᵗ address

-- The challenged requests that the middleware saw, for each address.
unfoldable pub challenged_by_ip : Observed → ℕ → List (Text × ℕ)
challenged_by_ip db cutoff =
    let logs =
      keep_if (λ log. is_challenged log.verdict && is_middleware log.source)
        (logs_since db cutoff) in
    map (λ address. (address, length (keep_if (of_address address) logs)))
      (distinct (map (λ log. log.ip_address) logs))

-- The addresses that solved a challenge lately.
unfoldable pub solved_ips : Observed → ℕ → List Text → List Text
solved_ips db cutoff addresses =
    map (λ token. token.ip_address)
      (keep_if (λ token. is_among token.ip_address addresses && leb cutoff token.solved_at)
        db.solved)

-- The requests of an address for other pages than the root, and those of them with no referer.
abbrev pub non_root : Observed → ℕ → Text → List RequestLog
non_root db cutoff address =
    keep_if (λ log. of_address address log && not (log.path =ᵗ text "/")) (logs_since db cutoff)

abbrev pub empty_referer : Observed → ℕ → Text → List RequestLog
empty_referer db cutoff address = keep_if has_no_referer (non_root db cutoff address)

unfoldable pub unsolved_ip_rule : Python → ℕ → ℕ → ℕ → ℕ → Text × ℕ → Proposal
unsolved_ip_rule py window_minutes referer_ratio total empty (address, count) = record {
  name = text "Auto: unsolved challenges from " ++ address;
  rule_type = ip;
  match_type = exact;
  pattern = address;
  action = block;
  detector_name = detector;
  confidence =
      scaled_confidence (100 * total) (100 * empty) (referer_ratio * total)
        ((100 - referer_ratio) * total);
  notes = evidence_notes py.str (
      (text "challenged_count", whole count)
      ∷ (text "empty_referer_ratio", rounded empty total)
      ∷ (text "non_root_requests", whole total)
      ∷ (text "window_minutes", whole window_minutes)
      ∷ []);
  anomaly_type = unsolved_challenge;
}

-- The three reasons to pass over a candidate.
unfoldable pub judge_ip : Python → List Text → ℕ → ℕ → ℕ → ℕ → Text × ℕ → Option Proposal
unfolding unsolved_ip_rule
judge_ip py solved window_minutes referer_ratio total empty (address, count) =
    if is_among address solved
    then none
    else if total == 0
    then none
    else if ltb (100 * empty) (referer_ratio * total)
    then none
    else some (unsolved_ip_rule py window_minutes referer_ratio total empty (address, count))

-- The addresses of a subnet.
abbrev subnet_is : Option Text → Text → Bool
subnet_is none subnet = false
subnet_is (some other) subnet = other =ᵗ subnet

unfoldable pub ips_of : Python → List (Text × ℕ) → Text → List Text
ips_of py rows subnet =
    distinct
      (map (λ row. row.0) (keep_if (λ row. subnet_is (get_subnet_prefix py row.0) subnet) rows))

-- Whether the subnet has an active challenge of this very detector.
abbrev pub names_detector : Option BlockRuleRow → Bool
names_detector none = false
names_detector (some existing) = is_among detector (split b',' existing.detectors)

abbrev pub subnet_lookup : Text → RuleAction → Lookup
subnet_lookup subnet action = record {
  rule_type = cidr;
  pattern = subnet;
  source = auto;
  action = action;
}

unfoldable pub already_challenged : Text → Table → Bool
already_challenged subnet t =
    names_detector
      (first (keep_if (λ row. row.is_active) (matching (subnet_lookup subnet challenge) t)))

unfoldable pub unsolved_subnet_rule : Python → (ℕ → Text) → ℕ → ℕ → ℕ → Text × ℕ → Bool → Proposal
unsolved_subnet_rule py show window_minutes min_challenged ips (subnet, total) repeated = record {
  name =
      (text "Auto: unsolved challenges from " ++ subnet) ++ text " (" ++ show ips ++ text " IPs)";
  rule_type = cidr;
  match_type = cidr_match;
  pattern = subnet;
  action = if repeated then block else challenge;
  detector_name = detector;
  confidence = scaled_confidence 1 total min_challenged (min_challenged * 2);
  notes = evidence_notes py.str (
      (text "subnet_challenged_count", whole total)
      ∷ (text "distinct_ips", whole ips)
      ∷ (text "window_minutes", whole window_minutes)
      ∷ []);
  anomaly_type = unsolved_challenge;
}

unfoldable pub judge_subnet :
    Python → DetectorConf → List Text → ℕ → List Text → Text × ℕ → Table → Option Proposal
unfolding unsolved_subnet_rule
judge_subnet py limits solved window_minutes ips (subnet, total) t =
    if ltb total limits.unsolved_subnet_min_challenged
      || ltb (length ips) limits.unsolved_subnet_min_ips
    then none
    else if any (λ address. is_among address solved) ips
    then none
    else some (
        unsolved_subnet_rule py (λ n. py.str (whole n)) window_minutes
          limits.unsolved_subnet_min_challenged (length ips) (subnet, total)
          (already_challenged subnet t))

module _ {E : Type 0} (orm : Orm) (conf : AnomalyConf) (py : Python) (limits : DetectorConf)
    (db : Observed) (run : Run) where
  unfoldable pub detect_per_ip :
      List Text → List (Text × ℕ) → ℕ → ℕ → ℕ → ℕ → Exec (Store E) (List BlockRuleRow)
  unfolding judge_ip
  detect_per_ip solved rows cutoff window_minutes min_challenged referer_ratio =
      flag_each orm conf run
        (λ row _.
          judge_ip py solved window_minutes referer_ratio (length (non_root db cutoff row.0))
            (length (empty_referer db cutoff row.0)) row)
        (keep_if (λ row. leb min_challenged row.1) rows)

  unfoldable pub detect_by_subnet :
      List Text → List (Text × ℕ) → ℕ → Exec (Store E) (List BlockRuleRow)
  unfolding judge_subnet ips_of
  detect_by_subnet solved rows window_minutes =
      flag_each orm conf run
        (λ row t. judge_subnet py limits solved window_minutes (ips_of py rows row.0) row t)
        (count_subnets py rows [])

  unfoldable pub detect_unsolved_challenges :
      ℕ → Option ℕ → Option ℕ → Option ℕ → Exec (Store E) (List BlockRuleRow)
  unfolding detect_per_ip detect_by_subnet challenged_by_ip solved_ips
  detect_unsolved_challenges window_minutes min_challenged referer_ratio subnet_window_minutes =
      let subnet_window = get_or subnet_window_minutes limits.unsolved_subnet_window_minutes in
      let cutoff = db.now - minutes window_minutes in
      let by_ip = challenged_by_ip db cutoff in
      let for_subnet = challenged_by_ip db (db.now - minutes subnet_window) in
      let solved =
        solved_ips db (db.now - hours limits.unsolved_solve_exemption_window_hours)
          (map (λ row. row.0) (by_ip ++ for_subnet)) in
      detect_per_ip solved by_ip cutoff window_minutes
        (get_or min_challenged limits.unsolved_min_challenged)
        (get_or referer_ratio limits.unsolved_referer_ratio)
      >>= λ per_ip. detect_by_subnet solved for_subnet subnet_window >>= λ by_subnet.
          pure (per_ip ++ by_subnet)
