-- ===== src/Anomaly/Detectors.antt =====
-- services/anomaly_detector.py: `detect_ua_rotation` and `detect_challenge_farms`.
use django_waf.Base.{
  ℕ, ◌-◌, ◌*◌, Bool, ◌&&◌, Option, some, List, [], ◌∷◌, ◌++◌, Text, text, ◌=ᵗ◌, leb, ltb, keep_if,
  map, length, get_or,
}
use django_waf.Exec.{Exec}
use django_waf.Rules.{ip, exact, challenge, block}
use django_waf.Anomaly.{BlockRuleRow, RequestLog, IpReputation, ua_rotation, challenge_farm}
use django_waf.Anomaly.Confidence.{scaled_confidence}
use django_waf.Anomaly.Store.{Orm, AnomalyConf, Proposal, Run, Store}
use django_waf.Anomaly.Flags.{flag_each}
use django_waf.Anomaly.Evidence.{
  Python, Observed, DetectorConf, whole, minutes, hours, logs_since, distinct, evidence_notes,
}

-- `values("ip_address").annotate(Count("user_agent", distinct=True))`
unfoldable pub distinct_user_agents : List RequestLog → List (Text × ℕ)
distinct_user_agents logs =
    map
      (λ address. (
        address,
        length (
            distinct
              (map (λ log. log.user_agent) (keep_if (λ log. log.ip_address =ᵗ address) logs))),
      ))
      (distinct (map (λ log. log.ip_address) logs))

unfoldable pub ua_rotation_rule : Python → ℕ → ℕ → Text × ℕ → Proposal
ua_rotation_rule py window_minutes threshold (address, count) = record {
  name = text "Auto: UA rotation from " ++ address;
  rule_type = ip;
  match_type = exact;
  pattern = address;
  action = challenge;
  detector_name = text "detect_ua_rotation";
  confidence = scaled_confidence 1 count threshold (threshold * 2);
  notes = evidence_notes py.str (
      (text "distinct_ua_count", whole count) ∷ (text "window_minutes", whole window_minutes) ∷ []);
  anomaly_type = ua_rotation;
}

unfoldable pub challenge_farm_rule : Python → IpReputation → Proposal
challenge_farm_rule py rep = record {
  name = text "Auto: challenge farm from " ++ rep.ip_address;
  rule_type = ip;
  match_type = exact;
  pattern = rep.ip_address;
  action = block;
  detector_name = text "detect_challenge_farms";
  confidence = scaled_confidence 1 rep.challenge_failures 10 20;
  notes = evidence_notes py.str (
      (text "challenge_failures", whole rep.challenge_failures)
      ∷ (text "challenge_passes", whole rep.challenge_passes)
      ∷ []);
  anomaly_type = challenge_farm;
}

abbrev is_farm : ℕ → IpReputation → Bool
is_farm cutoff rep =
    leb cutoff rep.last_seen_at && (ltb 10 rep.challenge_failures && ltb rep.challenge_passes 2)

module _ {E : Type 0} (orm : Orm) (conf : AnomalyConf) (py : Python) (limits : DetectorConf)
    (db : Observed) (run : Run) where
  unfoldable pub detect_ua_rotation : ℕ → Option ℕ → Exec (Store E) (List BlockRuleRow)
  unfolding distinct_user_agents ua_rotation_rule
  detect_ua_rotation window_minutes threshold =
      let most = get_or threshold limits.threshold_distinct_uas in
      flag_each orm conf run (λ row _. some (ua_rotation_rule py window_minutes most row))
        (keep_if (λ row. ltb most row.1)
          (distinct_user_agents (logs_since db (db.now - minutes window_minutes))))

  unfoldable pub detect_challenge_farms : ℕ → Exec (Store E) (List BlockRuleRow)
  unfolding challenge_farm_rule
  detect_challenge_farms window_hours =
      flag_each orm conf run (λ rep _. some (challenge_farm_rule py rep))
        (keep_if (is_farm (db.now - hours window_hours)) db.reputations)
