-- ===== src/Anomaly/Scraper.antt =====
-- services/anomaly_detector.py: `detect_scraper_404_ratio` with
-- `_scraper_candidate_matches_allow_rule`.
--
-- `has_redis` says whether `get_redis_client` gives a client. The user agents of an address come in
-- the order of the log, where the source has a set.
pub mod Laws
pub mod Closed
use django_waf.Base.{
  ℕ, ◌-◌, ◌*◌, Bool, true, false, not, ◌&&◌, Option, none, some, List, [], ◌∷◌, ◌++◌, Text, text,
  ◌=ᵗ◌, ◌==◌, leb, ltb, if◌then◌else◌, keep_if, map, length, is_some, get_or,
}
use django_waf.Exec.{Exec, pure, try_except, ◌>>=◌}
use django_waf.Redis.{Redis}
use django_waf.Rules.{Verdict, allowed, logged, ip, exact, block, challenge}
use django_waf.Rules.RuleCache.{Rules, RuleCache, Engine, redis, load_rule_cache}
use django_waf.Rules.Scan.{check_allow_rules}
use django_waf.Rules.Evaluate.{Site}
use django_waf.Anomaly.{BlockRuleRow, Table, RequestLog, scraper_404}
use django_waf.Anomaly.Confidence.{scaled_confidence}
use django_waf.Anomaly.Store.{Orm, AnomalyConf, Proposal, Run, Store}
use django_waf.Anomaly.Flags.{flag_each_by}
use django_waf.Anomaly.Evidence.{
  Python, Observed, whole, rounded, minutes, logs_since, distinct, evidence_notes,
}

pub record ScraperConf : Type 0 where
  pub window_minutes : ℕ
  pub min_requests : ℕ
  pub ratio : ℕ
  pub action_block : Bool

abbrev reached_app : Verdict → Bool
reached_app allowed = true
reached_app logged = true
reached_app _ = false

-- An address with its requests that reached the application, and those of them that are a 404.
pub record Ratio : Type 0 where
  pub ip_address : Text
  pub total : ℕ
  pub count_404 : ℕ

ratio_of : List RequestLog → Text → Ratio
ratio_of logs address =
    let its_logs = keep_if (λ log. log.ip_address =ᵗ address) logs in
    record {
      ip_address = address;
      total = length its_logs;
      count_404 = length (keep_if (λ log. log.response_code == 404) its_logs);
    }

-- The floor in the query, and the ratio of the loop.
abbrev pub qualifies : ScraperConf → Ratio → Bool
qualifies limits row =
    leb limits.min_requests row.total && not (ltb (100 * row.count_404) (limits.ratio * row.total))

unfoldable pub qualifying_rows : ScraperConf → List RequestLog → List Ratio
unfolding ratio_of
qualifying_rows limits logs =
    let counted = keep_if (λ log. reached_app log.verdict) logs in
    keep_if (qualifies limits)
      (map (ratio_of counted) (distinct (map (λ log. log.ip_address) counted)))

-- `user_agents_by_ip.get(ip, {""})`
abbrev or_blank : List Text → List Text
or_blank [] = [] ∷ []
or_blank (user_agent ∷ user_agents) = user_agent ∷ user_agents

unfoldable pub user_agents_of : List RequestLog → Text → List Text
user_agents_of logs address =
    or_blank
      (distinct (map (λ log. log.user_agent) (keep_if (λ log. log.ip_address =ᵗ address) logs)))

unfoldable pub scraper_rule : Python → ScraperConf → ℕ → Ratio → Proposal
scraper_rule py limits window_minutes row = record {
  name = text "Auto: scraper 404 ratio from " ++ row.ip_address;
  rule_type = ip;
  match_type = exact;
  pattern = row.ip_address;
  action = if limits.action_block then block else challenge;
  detector_name = text "detect_scraper_404_ratio";
  confidence =
      scaled_confidence (100 * row.total) (100 * row.count_404) (limits.ratio * row.total)
        ((100 - limits.ratio) * row.total);
  notes = evidence_notes py.str (
      (text "total_requests", whole row.total)
      ∷ (text "count_404", whole row.count_404)
      ∷ (text "ratio", rounded row.count_404 row.total)
      ∷ (text "window_minutes", whole window_minutes)
      ∷ []);
  anomaly_type = scraper_404;
}

module _ (r : Redis) where
  abbrev pub on_services : {A : Type 0} → Exec (Engine r) A → Exec (Store (Engine r)) A
  on_services m s = let (a, services) = m s.services in (a, record s { services = services })

module _ (site : Site) (r : Redis) (now : ℕ) where
  -- One look at the allow rules; an exception counts as a match.
  unfoldable pub matches_allow_rule : Text → Rules → Text → Exec (Engine r) Bool
  matches_allow_rule address rules user_agent =
      try_except
        (redis r (
            check_allow_rules site.platform r now address user_agent site.conf.rdns_failure_ttl
              rules.allow_rules)
          >>= λ found. pure (is_some found))
        (pure true)

  unfoldable pub scraper_candidate_matches_allow_rule :
      Text → Rules → List Text → Exec (Engine r) Bool
  unfolding matches_allow_rule
  scraper_candidate_matches_allow_rule address rules [] = pure false
  scraper_candidate_matches_allow_rule address rules (user_agent ∷ user_agents) =
      let rest = scraper_candidate_matches_allow_rule address rules user_agents in
      matches_allow_rule address rules user_agent >>= λ matches. if matches then pure true else rest

module _ (site : Site) (r : Redis) (has_redis : Bool) (orm : Orm) (conf : AnomalyConf) (py : Python)
    (limits : ScraperConf) (db : Observed) (run : Run) where
  unfoldable pub judge_candidate :
      List RequestLog → ℕ → Rules → Ratio → Exec (Store (Engine r)) (Option Proposal)
  unfolding scraper_rule user_agents_of
  judge_candidate logs window_minutes rules row =
      on_services r (
        scraper_candidate_matches_allow_rule site r db.now row.ip_address rules
          (user_agents_of logs row.ip_address))
      >>= λ matches.
          pure (if matches then none else some (scraper_rule py limits window_minutes row))

  -- Without the rules a candidate is passed over.
  unfoldable pub judge_row :
      List RequestLog → ℕ → Option RuleCache → Ratio → Exec (Store (Engine r)) (Option Proposal)
  unfolding judge_candidate
  judge_row logs window_minutes none row = pure none
  judge_row logs window_minutes (some cache) row =
      judge_candidate logs window_minutes cache.rules row

  unfoldable pub flag_candidates :
      List RequestLog
      → ℕ
      → List Ratio
      → Option RuleCache
      → Exec (Store (Engine r)) (List BlockRuleRow)
  unfolding judge_row
  flag_candidates logs window_minutes rows cache =
      flag_each_by orm conf run (judge_row logs window_minutes cache) rows

  unfoldable pub load_once : Exec (Store (Engine r)) (Option RuleCache)
  load_once =
      if has_redis
      then on_services r (
          try_except
            (load_rule_cache r site.platform.show site.encode site.decode site.read_rules
                site.platform.int
              >>= λ cache. pure (some cache))
            (pure none))
      else pure none

  unfoldable pub flag_rows :
      List RequestLog → ℕ → List Ratio → Exec (Store (Engine r)) (List BlockRuleRow)
  unfolding flag_candidates load_once
  flag_rows logs window_minutes [] = pure []
  flag_rows logs window_minutes (row ∷ rows) =
      load_once >>= flag_candidates logs window_minutes (row ∷ rows)

  unfoldable pub detect_scraper_404_ratio : Option ℕ → Exec (Store (Engine r)) (List BlockRuleRow)
  unfolding flag_rows
  detect_scraper_404_ratio window_minutes =
      let window = get_or window_minutes limits.window_minutes in
      let logs = logs_since db (db.now - minutes window) in
      flag_rows logs window (qualifying_rows limits logs)
