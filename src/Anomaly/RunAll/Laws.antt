-- ===== src/Anomaly/RunAll/Laws.antt =====
-- services/anomaly_detector.py: what a run of all the detectors does to the rules.
use django_waf.Base.{ℕ, Bool, true, ◌≡◌, refl, Option, none, some, List, get_or}
use django_waf.Exec.{Exec, ◌>>=◌}
use django_waf.Exec.Runs.{Runs, Runs-pure, Runs-bind, Anything, trivial}
use django_waf.Rules.RuleCache.{Engine}
use django_waf.Anomaly.{BlockRuleRow}
use django_waf.Anomaly.Store.{OrmLaws, Run, Store}
use django_waf.Anomaly.Detectors.{detect_ua_rotation, detect_challenge_farms}
use django_waf.Anomaly.SubnetBurst.{detect_subnet_burst}
use django_waf.Anomaly.Unsolved.{detect_unsolved_challenges}
use django_waf.Anomaly.CloudSpray.{detect_cloud_spray}
use django_waf.Anomaly.Scraper.{detect_scraper_404_ratio}
use django_waf.Anomaly.Scraper.Laws.{scraper-Runs}
use django_waf.Anomaly.RunAll.{Setting, Summary, run_all_detectors, this_run, hours_of}
use django_waf.Anomaly.Kept.{Kept}
use django_waf.Anomaly.Unique.{Unique}
use django_waf.Anomaly.Loops.{Lawful, Sane, Keeps, Keeps-Lawful}
use django_waf.Anomaly.DryRun.{Untouched, Untouched-Lawful}
use django_waf.Anomaly.Passes.{
  ua_rotation-Runs, challenge_farms-Runs, subnet_burst-Runs, unsolved-Runs, cloud_spray-Runs,
}

module _ (c : Setting) (window_minutes : Option ℕ) (dry_run count_refresh_as_created : Bool) where
  open c use {site, redis, orm, conf, py, limits, scraper, db}

  abbrev run : Run
  run = this_run c window_minutes dry_run count_refresh_as_created

  module _ (P : Store (Engine redis) → Type 0)
      (R : Store (Engine redis) → Store (Engine redis) → Type 0) (l : Lawful orm conf run P R) where
    -- One detector after another.
    then_detect :
        {A : Type 0} (m : Exec (Store (Engine redis)) (List BlockRuleRow))
        (f : List BlockRuleRow → Exec (Store (Engine redis)) A)
        → Runs P R Anything m
        → ((found : List BlockRuleRow) → Runs P R Anything (f found))
        → Runs P R Anything (m >>= f)
    then_detect m f h k = Runs-bind P R l.order Anything Anything m f h (λ found _. k found)

    run_all-Runs :
        Runs P R Anything (run_all_detectors c window_minutes dry_run count_refresh_as_created)
    unfolding run_all_detectors
    run_all-Runs =
        then_detect (detect_ua_rotation orm conf py limits db run (get_or window_minutes 5) none) _
          (ua_rotation-Runs orm conf py limits db run P R l (get_or window_minutes 5) none)
          (λ ua_rules.
            then_detect (detect_subnet_burst orm conf py limits db run (get_or window_minutes 15)) _
              (subnet_burst-Runs orm conf py limits db run P R l (get_or window_minutes 15))
              (λ subnet_rules.
                then_detect
                  (detect_challenge_farms orm conf py limits db run (hours_of window_minutes)) _
                  (challenge_farms-Runs orm conf py limits db run P R l (hours_of window_minutes))
                  (λ farm_rules.
                    then_detect
                      (detect_unsolved_challenges orm conf py limits db run
                        (get_or window_minutes 60) none none none)
                      _
                      (unsolved-Runs orm conf py limits db run P R l (get_or window_minutes 60) none
                        none none)
                      (λ unsolved_rules.
                        then_detect
                          (detect_cloud_spray orm conf py limits db run (get_or window_minutes 30))
                          _
                          (cloud_spray-Runs orm conf py limits db run P R l
                            (get_or window_minutes 30))
                          (λ spray_rules.
                            then_detect
                              (detect_scraper_404_ratio site redis c.has_redis orm conf py scraper
                                db run window_minutes)
                              _
                              (scraper-Runs site redis c.has_redis orm conf py scraper db run P R l
                                window_minutes)
                              (λ scraper_rules. Runs-pure P R l.order Anything _ trivial))))))

-- What a run does to the rules.
pub record RunsWell (c : Setting) (s : Store (Engine c.redis))
    (result : Option Summary × Store (Engine c.redis)) : Type 0 where
  pub summary : Summary
  pub returns : result.0 ≡ some summary
  pub unique : Unique result.1.rules
  pub kept : Kept s.rules result.1.rules

-- If no two automatic rules have the same key, a run of all the detectors returns a summary and
-- leaves it so; and every rule of the table is still there after it, with its key. A rule of an
-- administrator or of the feed is as it was; an operator's review stands, and whether the reviewed
-- rule is on; and a rule names every detector that it named. The run may lose races against other
-- runs; `update_or_create` is taken to do what Django's documentation says.
pub run_all_detectors-RunsWell :
    (c : Setting) (laws : OrmLaws c.orm) (window_minutes : Option ℕ)
    (dry_run count_refresh_as_created : Bool) (s : Store (Engine c.redis))
    → Unique s.rules
    → RunsWell c s (run_all_detectors c window_minutes dry_run count_refresh_as_created s)
run_all_detectors-RunsWell c laws window_minutes dry_run count_refresh_as_created s u =
    let ran =
      (run_all-Runs c window_minutes dry_run count_refresh_as_created Sane Keeps
          (Keeps-Lawful c.orm laws c.conf _)).at
        s (record { unique = u }) in
    record {
      summary = ran.value;
      returns = ran.gives;
      unique = ran.after.unique;
      kept = ran.moved.rules;
    }

-- A dry run of all the detectors returns a summary and leaves the rules and the signals as they
-- were, whatever the tables and Redis hold and whatever the ORM would do.
pub run_all_detectors-dry_run :
    (c : Setting) (window_minutes : Option ℕ) (count_refresh_as_created : Bool)
    (s : Store (Engine c.redis))
    → (summary : Summary) × ((run_all_detectors c window_minutes true count_refresh_as_created s).0
        ≡ some summary)
      × Untouched s (run_all_detectors c window_minutes true count_refresh_as_created s).1
run_all_detectors-dry_run c window_minutes count_refresh_as_created s =
    let ran =
      (run_all-Runs c window_minutes true count_refresh_as_created Anything Untouched
          (Untouched-Lawful c.orm c.conf _ refl)).at
        s trivial in
    (ran.value, ran.gives, ran.moved)
