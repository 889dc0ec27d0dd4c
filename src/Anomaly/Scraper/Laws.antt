-- ===== src/Anomaly/Scraper/Laws.antt =====
-- services/anomaly_detector.py: `detect_scraper_404_ratio`, from what one rule does.
use django_waf.Base.{
  ℕ, Bool, true, false, Option, none, some, List, [], ◌∷◌, Text, if◌then◌else◌, arith,
}
use django_waf.Exec.{Exec, pure}
use django_waf.Exec.Total.{Total, Total-pure, Total-if, Total-try, Total-bind}
use django_waf.Exec.Runs.{Runs, Runs-pure, Runs-bind, Runs-if, Anything, trivial}
use django_waf.Redis.{Redis}
use django_waf.Rules.RuleCache.{Rules, RuleCache, Engine}
use django_waf.Rules.Evaluate.{Site}
use django_waf.Anomaly.{RequestLog}
use django_waf.Anomaly.Store.{Orm, AnomalyConf, Run, Store}
use django_waf.Anomaly.Evidence.{Python, Observed}
use django_waf.Anomaly.Scraper.{
  ScraperConf, Ratio, on_services, scraper_candidate_matches_allow_rule, matches_allow_rule,
  judge_candidate, judge_row, flag_candidates, load_once, flag_rows, detect_scraper_404_ratio,
  scraper_rule, user_agents_of,
}
use django_waf.Anomaly.Loops.{Lawful, IsNamed, flag_each_by-Runs}
use django_waf.Anomaly.Passes.{IsNamed-unless}

module _ (site : Site) (r : Redis) (now : ℕ) where
  scraper_candidate-Total :
      (address : Text) (rules : Rules) (user_agents : List Text)
      → Total (scraper_candidate_matches_allow_rule site r now address rules user_agents)
  unfolding scraper_candidate_matches_allow_rule matches_allow_rule
  scraper_candidate-Total address rules [] = Total-pure false
  scraper_candidate-Total address rules (user_agent ∷ user_agents) =
      Total-bind (matches_allow_rule site r now address rules user_agent) _ (Total-try _ true)
        (λ matches.
          Total-if matches _ _ (Total-pure true)
            (scraper_candidate-Total address rules user_agents))

module _ (site : Site) (r : Redis) (has_redis : Bool) (orm : Orm) (conf : AnomalyConf) (py : Python)
    (limits : ScraperConf) (db : Observed) (run : Run) (P : Store (Engine r) → Type 0)
    (R : Store (Engine r) → Store (Engine r) → Type 0) (l : Lawful orm conf run P R) where
  on_services-Runs :
      {A : Type 0} (m : Exec (Engine r) A) → Total m → Runs P R Anything (on_services r m)
  on_services-Runs m t = record {
    at = λ s p.
        let (a, e) = t.at s.services in
        record {
          value = a;
          gives = e;
          holds = trivial;
          after = l.services s _ p;
          moved = l.services_moved s _;
        };
  }

  judge_candidate-Runs :
      (logs : List RequestLog) (window : ℕ) (rules : Rules) (row : Ratio)
      → Runs P R IsNamed
          (judge_candidate site r has_redis orm conf py limits db run logs window rules row)
  unfolding judge_candidate scraper_rule
  judge_candidate-Runs logs window rules row =
      let named : IsNamed (some (scraper_rule py limits window row)) = omega arith in
      Runs-bind P R l.order Anything IsNamed
        (on_services r (
          scraper_candidate_matches_allow_rule site r db.now row.ip_address rules
            (user_agents_of logs row.ip_address)))
        (λ matches. pure (if matches then none else some (scraper_rule py limits window row)))
        (on_services-Runs _ (scraper_candidate-Total site r db.now row.ip_address rules _))
        (λ matches _. Runs-pure P R l.order IsNamed _ (IsNamed-unless matches _ named))

  judge_row-Runs :
      (logs : List RequestLog) (window : ℕ) (cache : Option RuleCache) (row : Ratio)
      → Runs P R IsNamed
          (judge_row site r has_redis orm conf py limits db run logs window cache row)
  unfolding judge_row
  judge_row-Runs logs window none row = Runs-pure P R l.order IsNamed none tt
  judge_row-Runs logs window (some cache) row = judge_candidate-Runs logs window cache.rules row

  flag_candidates-Runs :
      (logs : List RequestLog) (window : ℕ) (rows : List Ratio) (cache : Option RuleCache)
      → Runs P R Anything
          (flag_candidates site r has_redis orm conf py limits db run logs window rows cache)
  unfolding flag_candidates
  flag_candidates-Runs logs window rows cache =
      flag_each_by-Runs orm conf run P R l _ rows (judge_row-Runs logs window cache)

  load_once-Runs : Runs P R Anything (load_once site r has_redis orm conf py limits db run)
  unfolding load_once
  load_once-Runs =
      Runs-if P R Anything has_redis _ _ (λ _. on_services-Runs _ (Total-try _ none))
        (λ _. Runs-pure P R l.order Anything none trivial)

  flag_rows-Runs :
      (logs : List RequestLog) (window : ℕ) (rows : List Ratio)
      → Runs P R Anything (flag_rows site r has_redis orm conf py limits db run logs window rows)
  unfolding flag_rows
  flag_rows-Runs logs window [] = Runs-pure P R l.order Anything [] trivial
  flag_rows-Runs logs window (row ∷ rows) =
      Runs-bind P R l.order Anything Anything (load_once site r has_redis orm conf py limits db run)
        (flag_candidates site r has_redis orm conf py limits db run logs window (row ∷ rows))
        load_once-Runs (λ cache _. flag_candidates-Runs logs window (row ∷ rows) cache)

  pub scraper-Runs :
      (window : Option ℕ)
      → Runs P R Anything
          (detect_scraper_404_ratio site r has_redis orm conf py limits db run window)
  unfolding detect_scraper_404_ratio
  scraper-Runs window = flag_rows-Runs _ _ _
