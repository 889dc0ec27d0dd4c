-- ===== src/Anomaly/Scraper/Closed.antt =====
-- services/anomaly_detector.py: `detect_scraper_404_ratio` proposes a rule only for an address that
-- the allow rules have been seen not to cover.
use django_waf.Base.{
  ℕ, ◌≡◌, refl, Bool, true, false, Option, none, some, List, [], ◌∷◌, Text, if◌then◌else◌, is_some,
}
use django_waf.Exec.{Exec, pure, continue, try_except}
use django_waf.Redis.{Redis}
use django_waf.Rules.{AllowRule}
use django_waf.Rules.RuleCache.{Rules, RuleCache, Engine, redis}
use django_waf.Rules.Scan.{check_allow_rules}
use django_waf.Rules.Evaluate.{Site}
use django_waf.Anomaly.{RequestLog}
use django_waf.Anomaly.Store.{Orm, AnomalyConf, Proposal, Run, Store}
use django_waf.Anomaly.Evidence.{Python, Observed}
use django_waf.Anomaly.Scraper.{
  ScraperConf, Ratio, matches_allow_rule, scraper_candidate_matches_allow_rule, judge_candidate,
  judge_row, user_agents_of, scraper_rule,
}

module _ (site : Site) (r : Redis) (now : ℕ) (address : Text) (rules : Rules) where
  abbrev look : Text → Exec (Engine r) (Option AllowRule)
  look user_agent = redis r (
      check_allow_rules site.platform r now address user_agent site.conf.rdns_failure_ttl
        rules.allow_rules)

  -- From the state of the engine on, each look returns, and finds no rule.
  abbrev pub NotAllowed : List Text → Engine r → Type 0
  NotAllowed [] e = Unit {0}
  NotAllowed (user_agent ∷ user_agents) e =
      ((look user_agent e).0 ≡ some none) × NotAllowed user_agents (look user_agent e).1

  abbrev NotAllowed-from : List Text → Option Bool × Engine r → Type 0
  NotAllowed-from user_agents (o, e) = o ≡ some false → NotAllowed user_agents e

  rest-NotAllowed :
      (user_agents : List Text) (o : Option (Option AllowRule)) (e : Engine r)
      → ((f : Engine r)
          → (scraper_candidate_matches_allow_rule site r now address rules user_agents f).0
            ≡ some false
          → NotAllowed user_agents f)
      → (continue
          (try_except (λ f. continue o (λ found. pure (is_some found)) f) (pure true) e).0
          (λ matches.
            if matches
            then pure true
            else scraper_candidate_matches_allow_rule site r now address rules user_agents)
          (try_except (λ f. continue o (λ found. pure (is_some found)) f) (pure true) e).1).0
        ≡ some false
      → (o ≡ some none) × NotAllowed user_agents e
  rest-NotAllowed user_agents none e k h = cc
  rest-NotAllowed user_agents (some none) e k h = (refl, k e h)
  rest-NotAllowed user_agents (some (some rule)) e k h = cc

  uncovered :
      (user_agents : List Text) (e : Engine r)
      → (scraper_candidate_matches_allow_rule site r now address rules user_agents e).0 ≡ some false
      → NotAllowed user_agents e
  unfolding scraper_candidate_matches_allow_rule matches_allow_rule
  uncovered [] e h = tt
  uncovered (user_agent ∷ user_agents) e h =
      rest-NotAllowed user_agents (look user_agent e).0 (look user_agent e).1
        (uncovered user_agents) h

module _ (site : Site) (r : Redis) (has_redis : Bool) (orm : Orm) (conf : AnomalyConf) (py : Python)
    (limits : ScraperConf) (db : Observed) (run : Run) where
  proposed :
      (logs : List RequestLog) (window : ℕ) (row : Ratio) (p : Proposal) (o : Option Bool)
      (s : Store (Engine r))
      → (continue {S = Store (Engine r)} o
          (λ matches. pure (if matches then none else some (scraper_rule py limits window row)))
          s).0
        ≡ some (some p)
      → (o ≡ some false) × (p ≡ scraper_rule py limits window row)
  proposed logs window row p none s h = cc
  proposed logs window row p (some true) s h = cc
  proposed logs window row p (some false) s h = (refl, cc)

  -- The detector proposes a rule for a candidate only if the rules were loaded and each look at their
  -- allow rules, one for every user agent of the candidate's address in the logs, returned and found
  -- no rule; and the rule is the one for that candidate. Without the rules, and where a look raises
  -- or finds a rule, nobody is flagged.
  pub judge_row-NotAllowed :
      (logs : List RequestLog) (window : ℕ) (cache : Option RuleCache) (row : Ratio) (p : Proposal)
      (s : Store (Engine r))
      → (judge_row site r has_redis orm conf py limits db run logs window cache row s).0
        ≡ some (some p)
      → (loaded : RuleCache) × (cache ≡ some loaded)
        × NotAllowed site r db.now row.ip_address loaded.rules
            (user_agents_of logs row.ip_address)
            s.services
        × (p ≡ scraper_rule py limits window row)
  unfolding judge_row judge_candidate
  judge_row-NotAllowed logs window none row p s h = cc
  judge_row-NotAllowed logs window (some loaded) row p s h =
      let (found, same) = proposed logs window row p _ _ h in
      (loaded, refl, uncovered site r db.now row.ip_address loaded.rules _ s.services found, same)
