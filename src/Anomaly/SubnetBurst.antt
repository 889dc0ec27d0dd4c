-- ===== src/Anomaly/SubnetBurst.antt =====
-- services/anomaly_detector.py: `_get_subnet_prefix` and `detect_subnet_burst`.
--
-- A median is a number of halves.
pub mod Floor
use django_waf.Base.{
  ℕ, zero, suc, ◌+◌, ◌-◌, ◌*◌, ◌/◌, ◌%◌, Bool, not, ◌&&◌, Option, none, some, List, [], ◌∷◌, ◌++◌,
  Text, text, ◌==◌, leb, ltb, if◌then◌else◌, keep_if, map, length, drop,
}
use django_waf.Exec.{Exec}
use django_waf.Rules.{cidr, cidr_match, challenge}
use django_waf.Anomaly.{BlockRuleRow, Table, RequestLog, subnet_flood}
use django_waf.Anomaly.Confidence.{scaled_confidence}
use django_waf.Anomaly.Store.{Orm, AnomalyConf, Proposal, Run, Store}
use django_waf.Anomaly.Flags.{flag_each}
use django_waf.Anomaly.Evidence.{
  Python, Observed, DetectorConf, whole, halves, minutes, logs_since, add_count, evidence_notes,
}

-- `none` is a ValueError.
unfoldable pub get_subnet_prefix : Python → Text → Option Text
get_subnet_prefix py address = elim (py.ip_address address) [
  | none ↦ none
  | some parsed ↦
      py.ip_network
        (address ++ text "/" ++ (if py.version parsed == 4 then text "24" else text "48"))
]

-- An address that is not valid is passed over.
abbrev pub count_subnet : Option Text → ℕ → List (Text × ℕ) → List (Text × ℕ)
count_subnet none n counts = counts
count_subnet (some subnet) n counts = add_count subnet n counts

-- The loop over the addresses with their counts; `counts` is the dictionary so far.
unfoldable pub count_subnets : Python → List (Text × ℕ) → List (Text × ℕ) → List (Text × ℕ)
count_subnets py [] counts = counts
count_subnets py ((address, n) ∷ rows) counts =
    count_subnets py rows (count_subnet (get_subnet_prefix py address) n counts)

insert_number : ℕ → List ℕ → List ℕ
insert_number n [] = n ∷ []
insert_number n (m ∷ numbers) =
    let rest = insert_number n numbers in if leb n m then n ∷ m ∷ numbers else m ∷ rest

sort_numbers : List ℕ → List ℕ
unfolding insert_number
sort_numbers [] = []
sort_numbers (n ∷ numbers) = insert_number n (sort_numbers numbers)

abbrev head_or_zero : List ℕ → ℕ
head_or_zero [] = 0
head_or_zero (n ∷ numbers) = n

-- `statistics.median`, doubled
unfoldable pub double_median : List ℕ → ℕ
unfolding sort_numbers
double_median numbers =
    let sorted = sort_numbers numbers in
    let half = length numbers / 2 in
    if length numbers % 2 == 1
    then 2 * head_or_zero (drop half sorted)
    else head_or_zero (drop (half - 1) sorted) + head_or_zero (drop half sorted)

-- Both tests have to fail for a subnet to be passed over.
abbrev pub is_burst : ℕ → ℕ → ℕ → Bool
is_burst min_count double_median count =
    not (ltb count min_count && leb (2 * count) (3 * double_median))

unfoldable pub subnet_burst_rule : Python → ℕ → ℕ → Text × ℕ → Proposal
subnet_burst_rule py min_count double_median (subnet, count) = record {
  name = text "Auto: subnet burst from " ++ subnet;
  rule_type = cidr;
  match_type = cidr_match;
  pattern = subnet;
  action = challenge;
  detector_name = text "detect_subnet_burst";
  confidence = scaled_confidence 2 (2 * count) (3 * double_median) (6 * double_median);
  notes = evidence_notes py.str (
      (text "count", whole count)
      ∷ (text "median", halves double_median)
      ∷ (text "threshold", halves (3 * double_median))
      ∷ (text "min_count", whole min_count)
      ∷ []);
  anomaly_type = subnet_flood;
}

abbrev pub subnet_counts : Python → Observed → ℕ → List (Text × ℕ)
subnet_counts py db window_minutes =
    count_subnets py
      (map (λ log. (log.ip_address, 1)) (logs_since db (db.now - minutes window_minutes))) []

module _ {E : Type 0} (orm : Orm) (conf : AnomalyConf) (py : Python) (limits : DetectorConf)
    (db : Observed) (run : Run) where
  unfoldable pub flag_bursts : List (Text × ℕ) → Exec (Store E) (List BlockRuleRow)
  unfolding subnet_burst_rule double_median
  flag_bursts counts =
      let median = double_median (map (λ row. row.1) counts) in
      flag_each orm conf run
        (λ row _. some (subnet_burst_rule py limits.subnet_burst_min_count median row))
        (keep_if (λ row. is_burst limits.subnet_burst_min_count median row.1) counts)

  -- With no counts the loop is empty, as the early return is.
  unfoldable pub detect_subnet_burst : ℕ → Exec (Store E) (List BlockRuleRow)
  unfolding flag_bursts
  detect_subnet_burst window_minutes = flag_bursts (subnet_counts py db window_minutes)
