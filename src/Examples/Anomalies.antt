-- ===== src/Examples/Anomalies.antt =====
-- Examples for the anomaly detectors: a burst of three requests from one subnet, whose automatic
-- challenge an operator had rejected.
use django_waf.Base.{
  ℕ, ◌+◌, ◌-◌, ◌≤◌, ◌≡◌, ◌↔◌, ◌⊎◌, refl, true, false, none, some, List, [], ◌∷◌, Text, text, In,
  is_empty, map, length-keep_if, length, arith,
}
use django_waf.Rules.{allowed, cidr, cidr_match, challenge}
use django_waf.Rules.RuleCache.{RuleCache, Engine}
use django_waf.Anomaly.{RequestLog, middleware, BlockRuleRow, auto, rejected, not_applicable, fits}
use django_waf.Anomaly.Confidence.{scaled_confidence}
use django_waf.Anomaly.Confidence.Laws.{scaled_confidence_bounds}
use django_waf.Anomaly.Names.{names_of, merge_detector_names}
use django_waf.Anomaly.Names.Laws.{merge_detector_names_lem}
use django_waf.Anomaly.Store.{AnomalyConf, Store, Proposal}
use django_waf.Anomaly.Evidence.{
  Python, Observed, DetectorConf, run_of, minutes, hours, logs_since, whole,
}
use django_waf.Anomaly.Unique.{Unique}
use django_waf.Anomaly.Unsolved.{
  judge_subnet, unsolved_subnet_rule, already_challenged, subnet_lookup,
}
use django_waf.Anomaly.Unsolved.Staged.{Staged, judge_subnet-Staged}
use django_waf.Anomaly.SubnetBurst.{detect_subnet_burst, get_subnet_prefix}
use django_waf.Anomaly.SubnetBurst.Floor.{detect_subnet_burst-floor, logs_of}
use django_waf.Anomaly.Present.{Has}
use django_waf.Anomaly.Scraper.{
  ScraperConf, Ratio, qualifying_rows, judge_row, judge_candidate, user_agents_of, scraper_rule,
  scraper_candidate_matches_allow_rule, matches_allow_rule,
}
use django_waf.Anomaly.Scraper.Closed.{NotAllowed, judge_row-NotAllowed}
use django_waf.Rules.Matching.{is_expired, rule_matches}
use django_waf.Rules.Rdns.{verify_rdns}
use django_waf.Rules.Scan.{check_allow_rules}
use django_waf.Tasks.{TaskStore, expire_rules}
use django_waf.Tasks.Sweep.{Swept, expire_rules-Swept}
use django_waf.Anomaly.DryRun.{Untouched}
use django_waf.Anomaly.RunAll.{Setting, Summary, run_all_detectors}
use django_waf.Anomaly.RunAll.Laws.{RunsWell, run_all_detectors-RunsWell, run_all_detectors-dry_run}
use django_waf.Examples.Memory.{memory, empty_memory}
use django_waf.Examples.Deployment.{site, fresh, rules}
use django_waf.Examples.Orm.{memory_orm, memory_orm-OrmLaws}

abbrev subnet : Text
subnet = text "10.0.0.0/24"

abbrev py : Python
py = record {
  Address = Text;
  ip_address = λ s. some s;
  version = λ address. 4;
  ip_network = λ s. some subnet;
  str = λ d. text "1";
  matches_bare_origin = λ s. false;
}

abbrev request_at : ℕ → RequestLog
request_at n = record {
  timestamp = hours 24 + n;
  ip_address = text "10.0.0.1";
  user_agent = text "curl";
  path = text "/";
  verdict = allowed;
  referer = none;
  response_code = 200;
  source = middleware;
}

abbrev db : Observed
db = record {
  now = hours 24 + 10;
  logs = request_at 1 ∷ request_at 2 ∷ request_at 3 ∷ [];
  reputations = [];
  solved = [];
}

abbrev limits : DetectorConf
limits = record {
  threshold_distinct_uas = 10;
  subnet_burst_min_count = 3;
  unsolved_min_challenged = 5;
  unsolved_referer_ratio = 50;
  unsolved_subnet_window_minutes = 360;
  unsolved_solve_exemption_window_hours = 24;
  unsolved_subnet_min_challenged = 4;
  unsolved_subnet_min_ips = 2;
  cloud_spray_min_ips = 10;
  cloud_spray_max_requests_per_ip = 3;
  cloud_spray_top_n = 10;
  cloud_spray_ua_rule = false;
  auto_rule_expiry_hours = 24;
}

abbrev conf : AnomalyConf
conf = record { quarantine_auto_rules = false; observe_only_detectors = [] }

abbrev scraper : ScraperConf
scraper = record { window_minutes = 60; min_requests = 20; ratio = 90; action_block = false }

abbrev rejected_rule : BlockRuleRow
rejected_rule = record {
  id = 7;
  created_at = 0;
  name = text "Auto: subnet burst";
  rule_type = cidr;
  match_type = cidr_match;
  pattern = subnet;
  action = challenge;
  is_active = false;
  source = auto;
  expires_at = none;
  confidence = 50;
  notes = [];
  review_status = rejected;
  detectors = text "detect_subnet_burst";
}

abbrev c : Setting
c = record {
  site = site;
  redis = memory;
  has_redis = true;
  orm = memory_orm;
  conf = conf;
  py = py;
  limits = limits;
  scraper = scraper;
  db = db;
}

abbrev store : Store (Engine memory)
store = record { rules = rejected_rule ∷ []; signals = []; services = fresh }

one_row-Unique : (row : BlockRuleRow) → Unique (row ∷ [])
unfolding Unique
one_row-Unique row k e = length-keep_if (fits k) (row ∷ [])

run_all_detectors-RunsWell_example : RunsWell c store (run_all_detectors c none false false store)
run_all_detectors-RunsWell_example =
    run_all_detectors-RunsWell c memory_orm-OrmLaws none false false store
      (one_row-Unique rejected_rule)

run_all_detectors-dry_run_example :
    (summary : Summary) × ((run_all_detectors c (some 90) true false store).0 ≡ some summary)
    × Untouched store (run_all_detectors c (some 90) true false store).1
run_all_detectors-dry_run_example = run_all_detectors-dry_run c (some 90) false store

three_requests :
    limits.subnet_burst_min_count ≤ length (logs_of py subnet (logs_since db (db.now - minutes 15)))
unfolding get_subnet_prefix
three_requests = omega arith

detect_subnet_burst-floor_example :
    Has
      (subnet_lookup subnet challenge)
      (detect_subnet_burst memory_orm conf py limits db
        (run_of limits db false false)
        15
        store).1.rules
detect_subnet_burst-floor_example =
    detect_subnet_burst-floor memory_orm memory_orm-OrmLaws conf py limits db
      (run_of limits db false false) 15 subnet store refl (one_row-Unique rejected_rule)
      (omega arith) three_requests

-- The subnet was challenged by the detector itself.
abbrev own_challenge : BlockRuleRow
own_challenge = record rejected_rule {
  is_active = true;
  review_status = not_applicable;
  detectors = text "detect_unsolved_challenges";
}

abbrev two_ips : List Text
two_ips = text "10.0.0.1" ∷ text "10.0.0.2" ∷ []

abbrev second_crossing : Proposal
second_crossing =
    unsolved_subnet_rule py (λ n. py.str (whole n)) 360 limits.unsolved_subnet_min_challenged 2
      (subnet, 5) (already_challenged subnet (own_challenge ∷ []))

subnet_is_flagged :
    judge_subnet py limits [] 360 two_ips (subnet, 5) (own_challenge ∷ []) ≡ some second_crossing
unfolding judge_subnet
subnet_is_flagged = refl

judge_subnet-Staged_example : Staged limits [] two_ips subnet 5 (own_challenge ∷ []) second_crossing
judge_subnet-Staged_example =
    judge_subnet-Staged py limits [] 360 two_ips subnet 5 (own_challenge ∷ []) second_crossing
      subnet_is_flagged

-- Three requests that all found nothing.
abbrev lost : List RequestLog
lost = map (λ n. record (request_at n) { response_code = 404 }) (1 ∷ 2 ∷ 3 ∷ [])

abbrev three_lost : Ratio
three_lost = record { ip_address = text "10.0.0.1"; total = 3; count_404 = 3 }

low_floor : qualifying_rows (record scraper { min_requests = 3 }) lost ≡ three_lost ∷ []
unfolding qualifying_rows
low_floor = refl

abbrev loaded_rules : RuleCache
loaded_rules = record { version = 0; rules = rules }

is_proposed :
    (judge_row site memory true memory_orm conf py scraper db
      (run_of limits db false false)
      lost
      60
      (some loaded_rules)
      three_lost
      store).0
    ≡ some (some (scraper_rule py scraper 60 three_lost))
unfolding judge_row judge_candidate scraper_candidate_matches_allow_rule matches_allow_rule
    check_allow_rules is_expired rule_matches verify_rdns user_agents_of
is_proposed = refl

judge_row-NotAllowed_example :
    (loaded : RuleCache) × (some loaded_rules ≡ some loaded)
    × NotAllowed site memory db.now
        (text "10.0.0.1")
        loaded.rules
        (user_agents_of lost (text "10.0.0.1"))
        fresh
    × (scraper_rule py scraper 60 three_lost ≡ scraper_rule py scraper 60 three_lost)
judge_row-NotAllowed_example =
    judge_row-NotAllowed site memory true memory_orm conf py scraper db
      (run_of limits db false false) lost 60 (some loaded_rules) three_lost
      (scraper_rule py scraper 60 three_lost) store is_proposed

scaled_confidence_bounds_example :
    (50 ≤ scaled_confidence 1 30 20 40)
    × (scaled_confidence 1 30 20 40 ≤ 98)
    × (scaled_confidence 1 30 20 40 ≤ scaled_confidence 1 35 20 40)
scaled_confidence_bounds_example =
    scaled_confidence_bounds 1 30 35 20 40 (omega arith) (omega arith)

merge_detector_names_lem_example :
    In (text "a") (names_of (merge_detector_names (text "b,a") (text "c"))) ↔ (
      ((text "a" ≡ text "c") × (is_empty (text "c") ≡ false))
      ⊎ In (text "a") (names_of (text "b,a")))
merge_detector_names_lem_example =
    merge_detector_names_lem (text "b,a") (text "c") (text "a") (omega arith)

abbrev due : TaskStore memory
due = record {
  block_rules = record own_challenge { expires_at = some 5 } ∷ [];
  allow_rules = record { is_active = true; expires_at = some 5 } ∷ [];
  server = empty_memory;
  local_version = none;
}

expire_rules-Swept_example : Swept memory 10 11 12 due (expire_rules memory 10 11 12 due)
expire_rules-Swept_example = expire_rules-Swept memory 10 11 12 due
