-- ===== src/Anomaly/SubnetBurst/Floor.antt =====
-- services/anomaly_detector.py: `detect_subnet_burst`, and the floor that no other traffic moves.
use django_waf.Base.{
  ℕ, ◌+◌, ◌-◌, ◌≤◌, ◌<◌, Bool, true, false, ◌≡◌, refl, sym, Option, none, some, List, [], ◌∷◌, Text,
  ◌=ᵗ◌, =ᵗ_iff, if◌then◌else◌, le→ltb_false, In, inl, inr, In-self_keep_if, keep_if, map, length,
  Bool-cases, arith,
}
use mathlib.Core.Path.{subst}
use django_waf.Rules.{challenge}
use django_waf.Anomaly.{RequestLog}
use django_waf.Anomaly.Store.{Orm, OrmLaws, AnomalyConf, Run, Store}
use django_waf.Anomaly.Evidence.{Python, Observed, DetectorConf, add_count, logs_since, minutes}
use django_waf.Anomaly.Unique.{Unique}
use django_waf.Anomaly.Present.{Has, flag_each-Has}
use django_waf.Anomaly.Unsolved.{subnet_lookup}
use django_waf.Anomaly.SubnetBurst.{
  get_subnet_prefix, count_subnet, count_subnets, subnet_counts, is_burst, subnet_burst_rule,
  flag_bursts, detect_subnet_burst,
}

-- `counts.get(subnet, 0)`
count_of : Text → List (Text × ℕ) → ℕ
count_of subnet [] = 0
count_of subnet ((other, n) ∷ counts) = if other =ᵗ subnet then n else count_of subnet counts

abbrev pub is_from : Option Text → Text → Bool
is_from none subnet = false
is_from (some other) subnet = other =ᵗ subnet

-- The requests of a subnet.
abbrev pub logs_of : Python → Text → List RequestLog → List RequestLog
logs_of py subnet logs = keep_if (λ log. is_from (get_subnet_prefix py log.ip_address) subnet) logs

count_of-add_count :
    (subnet key : Text) (n : ℕ) (counts : List (Text × ℕ))
    → count_of subnet (add_count key n counts)
      ≡ count_of subnet counts + (if key =ᵗ subnet then n else 0)
unfolding count_of
count_of-add_count subnet key n [] = ground arith
count_of-add_count subnet key n ((other, m) ∷ counts) = ground (
  arith,
  =ᵗ_iff other key,
  =ᵗ_iff other subnet,
  =ᵗ_iff key subnet,
  count_of-add_count subnet key n counts,
)

count_of-count_subnet :
    (subnet : Text) (prefix : Option Text) (counts : List (Text × ℕ))
    → count_of subnet (count_subnet prefix 1 counts)
      ≡ count_of subnet counts + (if is_from prefix subnet then 1 else 0)
count_of-count_subnet subnet none counts = omega arith
count_of-count_subnet subnet (some other) counts = count_of-add_count subnet other 1 counts

-- The dictionary holds the number of requests of each subnet.
count_of-count_subnets :
    (py : Python) (subnet : Text) (logs : List RequestLog) (counts : List (Text × ℕ))
    → count_of subnet (count_subnets py (map (λ log. (log.ip_address, 1)) logs) counts)
      ≡ count_of subnet counts + length (logs_of py subnet logs)
unfolding count_subnets
count_of-count_subnets py subnet [] counts = omega arith
count_of-count_subnets py subnet (log ∷ logs) counts =
    let prefix = get_subnet_prefix py log.ip_address in
    ground (
      arith,
      count_of-count_subnets py subnet logs (count_subnet prefix 1 counts),
      count_of-count_subnet subnet prefix counts,
    )

count_of-In :
    (subnet : Text) (counts : List (Text × ℕ))
    → 0 < count_of subnet counts
    → In (subnet, count_of subnet counts) counts
unfolding count_of
count_of-In subnet [] h = omega arith
count_of-In subnet ((other, n) ∷ counts) h = elim (Bool-cases (other =ᵗ subnet)) [
  | inl e ↦ rw e (inl (rw ((=ᵗ_iff other subnet).0 e) refl))
  | inr e ↦
      let same : count_of subnet ((other, n) ∷ counts) ≡ count_of subnet counts = rw e refl in
      inr (
        subst (λ m. In (subnet, m) counts) (sym same)
          (count_of-In subnet counts (omega (arith, h, same))))
]

is_burst-floor : (min_count median n : ℕ) → min_count ≤ n → is_burst min_count median n ≡ true
is_burst-floor min_count median n h = rw (le→ltb_false n min_count h) refl

module _ {E : Type 0} (orm : Orm) (laws : OrmLaws orm) (conf : AnomalyConf) (py : Python)
    (limits : DetectorConf) (db : Observed) (run : Run) where
  -- A real run of the detector leaves a challenge for every subnet that sent at least the floor of
  -- requests in the window, if the floor is above zero: whatever the other subnets sent, so that
  -- none can hide it by raising the median. No two automatic rules may have the same key before.
  pub detect_subnet_burst-floor :
      (window_minutes : ℕ) (subnet : Text) (s : Store E)
      → run.dry_run ≡ false
      → Unique s.rules
      → 0 < limits.subnet_burst_min_count
      → limits.subnet_burst_min_count
        ≤ length (logs_of py subnet (logs_since db (db.now - minutes window_minutes)))
      → Has
          (subnet_lookup subnet challenge)
          (detect_subnet_burst orm conf py limits db run window_minutes s).1.rules
  unfolding detect_subnet_burst flag_bursts subnet_burst_rule count_of
  detect_subnet_burst-floor window_minutes subnet s wet u positive h =
      let counts = subnet_counts py db window_minutes in
      let n = count_of subnet counts in
      let e =
        count_of-count_subnets py subnet (logs_since db (db.now - minutes window_minutes)) [] in
      let enough : limits.subnet_burst_min_count ≤ n = omega (arith, e) in
      flag_each-Has orm laws conf run wet _ (λ row t. omega arith) _ s (subnet, n) _
        (record { unique = u })
        (In-self_keep_if _ counts (count_of-In subnet counts (omega (arith, enough)))
          (is_burst-floor limits.subnet_burst_min_count _ n enough))
        (λ t. refl)
