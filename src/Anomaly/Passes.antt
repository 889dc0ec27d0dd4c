-- ===== src/Anomaly/Passes.antt =====
-- services/anomaly_detector.py: every detector, and a run of all of them, from what one rule does.
use django_waf.Base.{
  ℕ, ◌-◌, ◌*◌, ◌||◌, ltb, ◌==◌, length, any, Bool, true, false, Option, none, some, List, ◌++◌,
  Text, if◌then◌else◌, get_or, map, arith,
}
use django_waf.Exec.{pure, ◌>>=◌}
use django_waf.Exec.Runs.{Runs, Runs-pure, Runs-bind, Anything, trivial}
use django_waf.Anomaly.{Table}
use django_waf.Anomaly.Store.{Orm, AnomalyConf, Proposal, Run, Store}
use django_waf.Anomaly.Evidence.{Python, Observed, DetectorConf, whole, is_among, minutes, hours}
use django_waf.Anomaly.Detectors.{
  detect_ua_rotation, detect_challenge_farms, ua_rotation_rule, challenge_farm_rule,
}
use django_waf.Anomaly.SubnetBurst.{detect_subnet_burst, flag_bursts, subnet_burst_rule}
use django_waf.Anomaly.Unsolved.{
  detect_unsolved_challenges, detect_per_ip, detect_by_subnet, judge_ip, judge_subnet,
  unsolved_ip_rule, unsolved_subnet_rule, ips_of, already_challenged, challenged_by_ip, solved_ips,
  non_root, empty_referer,
}
use django_waf.Anomaly.CloudSpray.{
  detect_cloud_spray, spray_rule, spray_ua_rule, spray_subnet_rule, Candidate, by_ua, by_subnet,
}
use django_waf.Anomaly.Loops.{Lawful, IsNamed, flag_each-Runs}

pub IsNamed-unless : (b : Bool) (p : Option Proposal) → IsNamed p → IsNamed (if b then none else p)
IsNamed-unless true p n = tt
IsNamed-unless false p n = n

module _ {E : Type 0} (orm : Orm) (conf : AnomalyConf) (py : Python) (limits : DetectorConf)
    (db : Observed) (run : Run) (P : Store E → Type 0) (R : Store E → Store E → Type 0)
    (l : Lawful orm conf run P R) where
  pub ua_rotation-Runs :
      (window_minutes : ℕ) (threshold : Option ℕ)
      → Runs P R Anything (detect_ua_rotation orm conf py limits db run window_minutes threshold)
  unfolding detect_ua_rotation ua_rotation_rule
  ua_rotation-Runs window_minutes threshold =
      flag_each-Runs orm conf run P R l _ _ (λ row t. omega arith)

  pub challenge_farms-Runs :
      (window_hours : ℕ)
      → Runs P R Anything (detect_challenge_farms orm conf py limits db run window_hours)
  unfolding detect_challenge_farms challenge_farm_rule
  challenge_farms-Runs window_hours = flag_each-Runs orm conf run P R l _ _ (λ rep t. omega arith)

  pub subnet_burst-Runs :
      (window_minutes : ℕ)
      → Runs P R Anything (detect_subnet_burst orm conf py limits db run window_minutes)
  unfolding detect_subnet_burst flag_bursts subnet_burst_rule
  subnet_burst-Runs window_minutes = flag_each-Runs orm conf run P R l _ _ (λ row t. omega arith)

  spray_rule-IsNamed :
      (window_minutes min_ips : ℕ) (c : Candidate)
      → IsNamed (some (spray_rule py window_minutes min_ips c))
  unfolding spray_rule spray_ua_rule spray_subnet_rule
  spray_rule-IsNamed window_minutes min_ips (by_ua user_agent ips) = omega arith
  spray_rule-IsNamed window_minutes min_ips (by_subnet user_agent ips row) = omega arith

  pub cloud_spray-Runs :
      (window_minutes : ℕ)
      → Runs P R Anything (detect_cloud_spray orm conf py limits db run window_minutes)
  unfolding detect_cloud_spray
  cloud_spray-Runs window_minutes =
      flag_each-Runs orm conf run P R l _ _
        (λ c t. spray_rule-IsNamed window_minutes limits.cloud_spray_min_ips c)

  judge_ip-IsNamed :
      (solved : List Text) (window ratio total empty : ℕ) (row : Text × ℕ)
      → IsNamed (judge_ip py solved window ratio total empty row)
  unfolding judge_ip unsolved_ip_rule
  judge_ip-IsNamed solved window ratio total empty (address, count) =
      let named : IsNamed (some (unsolved_ip_rule py window ratio total empty (address, count))) =
        omega arith in
      IsNamed-unless (is_among address solved) _
        (IsNamed-unless (total == 0) _ (IsNamed-unless (ltb (100 * empty) (ratio * total)) _ named))

  judge_subnet-IsNamed :
      (solved : List Text) (window : ℕ) (ips : List Text) (row : Text × ℕ) (t : Table)
      → IsNamed (judge_subnet py limits solved window ips row t)
  unfolding judge_subnet unsolved_subnet_rule
  judge_subnet-IsNamed solved window ips (subnet, total) t =
      let named : IsNamed (
          some (
            unsolved_subnet_rule py (λ n. py.str (whole n)) window
              limits.unsolved_subnet_min_challenged (length ips) (subnet, total)
              (already_challenged subnet t))) =
        omega arith in
      IsNamed-unless
        (ltb total limits.unsolved_subnet_min_challenged
          || ltb (length ips) limits.unsolved_subnet_min_ips)
        _ (IsNamed-unless (any (λ address. is_among address solved) ips) _ named)

  per_ip-Runs :
      (solved : List Text) (rows : List (Text × ℕ)) (cutoff window min_challenged ratio : ℕ)
      → Runs P R Anything
          (detect_per_ip orm conf py limits db run solved rows cutoff window min_challenged ratio)
  unfolding detect_per_ip
  per_ip-Runs solved rows cutoff window min_challenged ratio =
      flag_each-Runs orm conf run P R l _ _ (λ row t.
        judge_ip-IsNamed solved window ratio (length (non_root db cutoff row.0))
          (length (empty_referer db cutoff row.0)) row)

  pub by_subnet-Runs :
      (solved : List Text) (rows : List (Text × ℕ)) (window : ℕ)
      → Runs P R Anything (detect_by_subnet orm conf py limits db run solved rows window)
  unfolding detect_by_subnet
  by_subnet-Runs solved rows window =
      flag_each-Runs orm conf run P R l _ _
        (λ row t. judge_subnet-IsNamed solved window (ips_of py rows row.0) row t)

  pub unsolved-Runs :
      (window : ℕ) (min_challenged ratio subnet_window : Option ℕ)
      → Runs P R Anything (
          detect_unsolved_challenges orm conf py limits db run window min_challenged ratio
            subnet_window)
  unfolding detect_unsolved_challenges
  unsolved-Runs window min_challenged ratio subnet_window =
      let cutoff = db.now - minutes window in
      let window' = get_or subnet_window limits.unsolved_subnet_window_minutes in
      let by_ip = challenged_by_ip db cutoff in
      let for_subnet = challenged_by_ip db (db.now - minutes window') in
      let addresses : List Text = map (λ (row : Text × ℕ). row.0) (by_ip ++ for_subnet) in
      let solved =
        solved_ips db (db.now - hours limits.unsolved_solve_exemption_window_hours) addresses in
      let most = get_or min_challenged limits.unsolved_min_challenged in
      let share = get_or ratio limits.unsolved_referer_ratio in
      Runs-bind P R l.order Anything Anything
        (detect_per_ip orm conf py limits db run solved by_ip cutoff window most share)
        (λ per_ip. detect_by_subnet orm conf py limits db run solved for_subnet window' >>= λ found.
          pure (per_ip ++ found))
        (per_ip-Runs solved by_ip cutoff window most share)
        (λ per_ip _.
          Runs-bind P R l.order Anything Anything
            (detect_by_subnet orm conf py limits db run solved for_subnet window')
            (λ found. pure (per_ip ++ found)) (by_subnet-Runs solved for_subnet window')
            (λ found _. Runs-pure P R l.order Anything (per_ip ++ found) trivial))
