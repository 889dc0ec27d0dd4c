-- ===== src/Anomaly/Evidence.antt =====
-- services/anomaly_detector.py: what the detectors read, and the evidence that they write down.
--
-- A duration is a number of microseconds, a ratio of the settings a number of hundredths, and the
-- clock is read once in a run. The rows of a query that groups come in the order of each group's
-- first row, which no database promises. A number is shown by `str`, which is a parameter as
-- ipaddress and re are.
use django_waf.Base.{
  ℕ, ◌+◌, ◌*◌, Bool, not, Option, none, some, List, [], ◌∷◌, ◌++◌, Text, text, ◌=ᵗ◌, leb,
  if◌then◌else◌, keep_if, any, is_empty,
}
use django_waf.Anomaly.{RequestLog, IpReputation, SolvedToken}
use django_waf.Anomaly.Store.{Run}

-- An int, a float that is a number of halves, `round(top / bottom, 2)`, and a text.
pub data Detail : Type 0 where
  whole halves : ℕ → Detail
  rounded : ℕ → ℕ → Detail
  words : Text → Detail

-- `matches_bare_origin` is a search for `BARE_ORIGIN_REFERER_RE`, and `ip_network` the text of
-- `ip_network(…, strict=False)`.
pub record Python : Type 1 where
  pub Address : Type 0
  pub ip_address : Text → Option Address
  pub version : Address → ℕ
  pub ip_network : Text → Option Text
  pub str : Detail → Text
  pub matches_bare_origin : Text → Bool

-- The tables that the detectors query, and the time.
pub record Observed : Type 0 where
  pub now : ℕ
  pub logs : List RequestLog
  pub reputations : List IpReputation
  pub solved : List SolvedToken

pub record DetectorConf : Type 0 where
  pub threshold_distinct_uas : ℕ
  pub subnet_burst_min_count : ℕ
  pub unsolved_min_challenged : ℕ
  pub unsolved_referer_ratio : ℕ
  pub unsolved_subnet_window_minutes : ℕ
  pub unsolved_solve_exemption_window_hours : ℕ
  pub unsolved_subnet_min_challenged : ℕ
  pub unsolved_subnet_min_ips : ℕ
  pub cloud_spray_min_ips : ℕ
  pub cloud_spray_max_requests_per_ip : ℕ
  pub cloud_spray_top_n : ℕ
  pub cloud_spray_ua_rule : Bool
  pub auto_rule_expiry_hours : ℕ

abbrev pub minutes : ℕ → ℕ
minutes n = n * 60_000_000

abbrev pub hours : ℕ → ℕ
hours n = n * 3_600_000_000

abbrev pub logs_since : Observed → ℕ → List RequestLog
logs_since db cutoff = keep_if (λ log. leb cutoff log.timestamp) db.logs

abbrev pub run_of : DetectorConf → Observed → Bool → Bool → Run
run_of conf db dry_run count_refresh_as_created = record {
  dry_run = dry_run;
  count_refresh_as_created = count_refresh_as_created;
  expiry = db.now + hours conf.auto_rule_expiry_hours;
}

abbrev pub is_among : Text → List Text → Bool
is_among name names = any (λ other. other =ᵗ name) names

-- The texts with no repetition.
abbrev pub distinct : List Text → List Text
distinct [] = []
distinct (name ∷ names) = name ∷ keep_if (λ other. not (other =ᵗ name)) (distinct names)

-- `counts[key] = counts.get(key, 0) + n`
abbrev pub add_count : Text → ℕ → List (Text × ℕ) → List (Text × ℕ)
add_count key n [] = (key, n) ∷ []
add_count key n ((other, count) ∷ counts) =
    if other =ᵗ key then (other, count + n) ∷ counts else (other, count) ∷ add_count key n counts

-- `"\n".join(f"{key}: {value}" for key, value in evidence.items())`
abbrev pub evidence_notes : (Detail → Text) → List (Text × Detail) → Text
evidence_notes str [] = []
evidence_notes str ((key, value) ∷ []) = key ++ text ": " ++ str value
evidence_notes str ((key, value) ∷ second ∷ evidence) =
    (key ++ text ": " ++ str value) ++ b'\n' ∷ evidence_notes str (second ∷ evidence)

abbrev pub has_no_referer : RequestLog → Bool
has_no_referer log = elim log.referer [ none ↦ Bool.true | some referer ↦ is_empty referer ]
