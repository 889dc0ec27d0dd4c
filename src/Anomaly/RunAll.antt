-- ===== src/Anomaly/RunAll.antt =====
-- services/anomaly_detector.py: `run_all_detectors`.
pub mod Laws
use django_waf.Base.{
  ℕ, max, ◌+◌, ◌/◌, Bool, Option, none, some, List, [], ◌∷◌, ◌++◌, length, get_or,
}
use django_waf.Exec.{Exec, pure, ◌>>=◌}
use django_waf.Redis.{Redis}
use django_waf.Rules.RuleCache.{Engine}
use django_waf.Rules.Evaluate.{Site}
use django_waf.Anomaly.{BlockRuleRow}
use django_waf.Anomaly.Store.{Orm, AnomalyConf, Run, Store}
use django_waf.Anomaly.Evidence.{Python, Observed, DetectorConf, run_of}
use django_waf.Anomaly.Detectors.{detect_ua_rotation, detect_challenge_farms}
use django_waf.Anomaly.SubnetBurst.{detect_subnet_burst}
use django_waf.Anomaly.Unsolved.{detect_unsolved_challenges}
use django_waf.Anomaly.CloudSpray.{detect_cloud_spray}
use django_waf.Anomaly.Scraper.{ScraperConf, detect_scraper_404_ratio}

pub record Summary : Type 0 where
  pub ua_rotation_rules : ℕ
  pub subnet_burst_rules : ℕ
  pub challenge_farm_rules : ℕ
  pub unsolved_challenge_rules : ℕ
  pub cloud_spray_rules : ℕ
  pub scraper_404_rules : ℕ
  pub total_rules_created : ℕ

-- `max(1, -(-window_minutes // 60))`, or the detector's own window
abbrev pub hours_of : Option ℕ → ℕ
hours_of none = 24
hours_of (some window_minutes) = max 1 ((window_minutes + 59) / 60)

-- What the detectors have in common.
pub record Setting : Type 1 where
  pub site : Site
  pub redis : Redis
  pub has_redis : Bool
  pub orm : Orm
  pub conf : AnomalyConf
  pub py : Python
  pub limits : DetectorConf
  pub scraper : ScraperConf
  pub db : Observed

module _ (c : Setting) (window_minutes : Option ℕ) (dry_run count_refresh_as_created : Bool) where
  open c use {site, redis, orm, conf, py, limits, scraper, db}

  abbrev pub this_run : Run
  this_run = run_of limits db dry_run count_refresh_as_created

  unfoldable pub run_all_detectors : Exec (Store (Engine redis)) Summary
  run_all_detectors = do
    ua_rules ← detect_ua_rotation orm conf py limits db this_run (get_or window_minutes 5) none
    subnet_rules ← detect_subnet_burst orm conf py limits db this_run (get_or window_minutes 15)
    farm_rules ← detect_challenge_farms orm conf py limits db this_run (hours_of window_minutes)
    unsolved_rules ←
        detect_unsolved_challenges orm conf py limits db this_run (get_or window_minutes 60) none
          none none
    spray_rules ← detect_cloud_spray orm conf py limits db this_run (get_or window_minutes 30)
    scraper_rules ←
        detect_scraper_404_ratio site redis c.has_redis orm conf py scraper db this_run
          window_minutes
    pure (record {
      ua_rotation_rules = length ua_rules;
      subnet_burst_rules = length subnet_rules;
      challenge_farm_rules = length farm_rules;
      unsolved_challenge_rules = length unsolved_rules;
      cloud_spray_rules = length spray_rules;
      scraper_404_rules = length scraper_rules;
      total_rules_created =
          length ua_rules
          + length subnet_rules
          + length farm_rules
          + length unsolved_rules
          + length spray_rules
          + length scraper_rules;
    })
