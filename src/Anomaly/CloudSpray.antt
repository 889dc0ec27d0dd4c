-- ===== src/Anomaly/CloudSpray.antt =====
-- services/anomaly_detector.py: `detect_cloud_spray`.
--
-- Its rules do not depend on the table, so the candidates of all user agents come first, in the
-- order in which the source's nested loops reach them.
use django_waf.Base.{
  ℕ, ◌-◌, ◌*◌, Bool, not, ◌||◌, some, List, [], ◌∷◌, ◌++◌, Text, text, ◌=ᵗ◌, leb, ltb,
  if◌then◌else◌, keep_if, map, length, take, is_empty, get_or,
}
use django_waf.Exec.{Exec}
use django_waf.Rules.{ua, exact, cidr, cidr_match, challenge}
use django_waf.Anomaly.{BlockRuleRow, RequestLog, cloud_spray}
use django_waf.Anomaly.Confidence.{scaled_confidence}
use django_waf.Anomaly.Store.{Orm, AnomalyConf, Proposal, Run, Store}
use django_waf.Anomaly.Flags.{flag_each}
use django_waf.Anomaly.Evidence.{
  Python, Observed, DetectorConf, whole, words, minutes, logs_since, distinct, evidence_notes,
  has_no_referer,
}
use django_waf.Anomaly.SubnetBurst.{count_subnets}

-- With no referer, or with one that no browser sends.
hides_referer : Python → RequestLog → Bool
hides_referer py log = has_no_referer log || py.matches_bare_origin (get_or log.referer [])

insert_by_count : Text × ℕ → List (Text × ℕ) → List (Text × ℕ)
insert_by_count row [] = row ∷ []
insert_by_count row (other ∷ rows) =
    let rest = insert_by_count row rows in
    if leb other.1 row.1 then row ∷ other ∷ rows else other ∷ rest

most_first : List (Text × ℕ) → List (Text × ℕ)
unfolding insert_by_count
most_first [] = []
most_first (row ∷ rows) = insert_by_count row (most_first rows)

-- The requests of a user agent, and how many each address made.
requests_by_ip : Text → List RequestLog → List (Text × ℕ)
requests_by_ip user_agent logs =
    let its_logs = keep_if (λ log. log.user_agent =ᵗ user_agent) logs in
    map (λ address. (address, length (keep_if (λ log. log.ip_address =ᵗ address) its_logs)))
      (distinct (map (λ log. log.ip_address) its_logs))

spray_uas : DetectorConf → List RequestLog → List (Text × ℕ)
unfolding most_first requests_by_ip
spray_uas limits logs =
    let named = keep_if (λ log. not (is_empty log.user_agent)) logs in
    take limits.cloud_spray_top_n (
      most_first (
        keep_if (λ row. leb limits.cloud_spray_min_ips row.1)
          (map (λ user_agent. (user_agent, length (requests_by_ip user_agent named)))
            (distinct (map (λ log. log.user_agent) named)))))

unfoldable pub spray_ua_rule : Python → ℕ → ℕ → ℕ → Text → Proposal
spray_ua_rule py window_minutes min_ips ips user_agent = record {
  name =
      (text "Auto: cloud spray UA (" ++ py.str (whole ips))
      ++ text " IPs, UA: "
      ++ take 40 user_agent
      ++ text ")";
  rule_type = ua;
  match_type = exact;
  pattern = user_agent;
  action = challenge;
  detector_name = text "detect_cloud_spray";
  confidence = scaled_confidence 1 ips min_ips (min_ips * 2);
  notes = evidence_notes py.str (
      (text "distinct_ips", whole ips)
      ∷ (text "user_agent", words (take 200 user_agent))
      ∷ (text "window_minutes", whole window_minutes)
      ∷ []);
  anomaly_type = cloud_spray;
}

unfoldable pub spray_subnet_rule : Python → ℕ → ℕ → ℕ → Text → Text × ℕ → Proposal
spray_subnet_rule py window_minutes min_ips ips user_agent (subnet, count) = record {
  name =
      (text "Auto: cloud spray from " ++ subnet)
      ++ text " ("
      ++ py.str (whole count)
      ++ text " IPs, UA: "
      ++ take 40 user_agent
      ++ text ")";
  rule_type = cidr;
  match_type = cidr_match;
  pattern = subnet;
  action = challenge;
  detector_name = text "detect_cloud_spray";
  confidence = scaled_confidence 1 count min_ips (min_ips * 2);
  notes = evidence_notes py.str (
      (text "subnet", words subnet)
      ∷ (text "ip_count", whole count)
      ∷ (text "total_spray_ips", whole ips)
      ∷ (text "user_agent", words (take 200 user_agent))
      ∷ (text "window_minutes", whole window_minutes)
      ∷ []);
  anomaly_type = cloud_spray;
}

-- A user agent with the number of its suspicious addresses, alone or with a subnet of theirs.
pub data Candidate : Type 0 where
  by_ua : Text → ℕ → Candidate
  by_subnet : Text → ℕ → Text × ℕ → Candidate

candidates_of : Python → DetectorConf → List RequestLog → Text → List Candidate
unfolding requests_by_ip
candidates_of py limits logs user_agent =
    let suspicious =
      keep_if (λ row. leb row.1 limits.cloud_spray_max_requests_per_ip)
        (requests_by_ip user_agent logs) in
    let ips = length suspicious in
    if ltb ips limits.cloud_spray_min_ips
    then []
    else (if limits.cloud_spray_ua_rule then by_ua user_agent ips ∷ [] else [])
      ++ map (by_subnet user_agent ips) (
          keep_if (λ row. not (ltb row.1 2))
            (count_subnets py (map (λ row. (row.0, 1)) suspicious) []))

all_candidates : Python → DetectorConf → List RequestLog → List (Text × ℕ) → List Candidate
unfolding candidates_of
all_candidates py limits logs [] = []
all_candidates py limits logs (row ∷ rows) =
    candidates_of py limits logs row.0 ++ all_candidates py limits logs rows

unfoldable pub spray_rule : Python → ℕ → ℕ → Candidate → Proposal
unfolding spray_ua_rule spray_subnet_rule
spray_rule py window_minutes min_ips (by_ua user_agent ips) =
    spray_ua_rule py window_minutes min_ips ips user_agent
spray_rule py window_minutes min_ips (by_subnet user_agent ips row) =
    spray_subnet_rule py window_minutes min_ips ips user_agent row

module _ {E : Type 0} (orm : Orm) (conf : AnomalyConf) (py : Python) (limits : DetectorConf)
    (db : Observed) (run : Run) where
  unfoldable pub detect_cloud_spray : ℕ → Exec (Store E) (List BlockRuleRow)
  unfolding spray_rule all_candidates spray_uas hides_referer
  detect_cloud_spray window_minutes =
      let logs = keep_if (hides_referer py) (logs_since db (db.now - minutes window_minutes)) in
      flag_each orm conf run
        (λ candidate _. some (spray_rule py window_minutes limits.cloud_spray_min_ips candidate))
        (all_candidates py limits logs (spray_uas limits logs))
