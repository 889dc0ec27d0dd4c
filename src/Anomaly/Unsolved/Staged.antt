-- ===== src/Anomaly/Unsolved/Staged.antt =====
-- services/anomaly_detector.py: when `_detect_unsolved_challenges_by_subnet` flags a subnet.
use django_waf.Base.{
  ℕ, ◌≤◌, Bool, true, false, ◌||◌, ◌≡◌, ◌≢◌, refl, Option, none, some, List, [], ◌∷◌, Text, =ᵗ_iff,
  if◌then◌else◌, ltb, ltb_false→le, In, inl, inr, In-keep_if, keep_if, any, length, split,
  Option-cases, arith,
}
use mathlib.Core.Path.{subst}
use django_waf.Rules.{challenge, block}
use django_waf.Anomaly.{BlockRuleRow, Table, fits, matching}
use django_waf.Anomaly.Store.{Proposal, first}
use django_waf.Anomaly.Evidence.{Python, DetectorConf, is_among, whole}
use django_waf.Anomaly.Unsolved.{
  detector, judge_subnet, unsolved_subnet_rule, already_challenged, subnet_lookup,
}

-- The table has an active automatic challenge for the subnet that names this detector.
pub record ChallengedBefore (subnet : Text) (t : Table) : Type 0 where
  pub row : BlockRuleRow
  pub is_there : In row t
  pub fitting : fits (subnet_lookup subnet challenge) row ≡ true
  pub active : row.is_active ≡ true
  pub own : In detector (split b',' row.detectors)

pub record Staged (limits : DetectorConf) (solved ips : List Text) (subnet : Text) (total : ℕ)
    (t : Table) (p : Proposal) : Type 0 where
  pub same_subnet : p.pattern ≡ subnet
  pub enough : limits.unsolved_subnet_min_challenged ≤ total
  pub spread : limits.unsolved_subnet_min_ips ≤ length ips
  pub unsolved : any (λ address. is_among address solved) ips ≡ false
  pub stage : p.action ≢ challenge → (p.action ≡ block) × ChallengedBefore subnet t

is_among-In : (name : Text) (names : List Text) → is_among name names ≡ true → In name names
is_among-In name [] h = cc
is_among-In name (other ∷ names) h = ground (arith, =ᵗ_iff other name, is_among-In name names)

first-In : (t : Table) (row : BlockRuleRow) → first t ≡ some row → In row t
first-In [] row e = cc
first-In (r ∷ t) row e = inl (let same : row ≡ r = cc in same)

already_challenged-ChallengedBefore :
    (subnet : Text) (t : Table) → already_challenged subnet t ≡ true → ChallengedBefore subnet t
unfolding already_challenged
already_challenged-ChallengedBefore subnet t h =
    let rows = matching (subnet_lookup subnet challenge) t in
    elim (Option-cases (first (keep_if (λ row. row.is_active) rows))) [
      | inl e ↦ absurd (let no : ⊥ = cc (rw e at h) in no)
      | inr (row, e) ↦
          let (i, active) = In-keep_if (λ row. row.is_active) rows (first-In _ row e) in
          let (j, fitting) = In-keep_if (fits (subnet_lookup subnet challenge)) t i in
          record {
            row = row;
            is_there = j;
            fitting = fitting;
            active = active;
            own = is_among-In detector (split b',' row.detectors) (rw e at h);
          }
    ]

unless_some :
    {A : Type 0} (b : Bool) (o : Option A) (a : A)
    → (if b then none else o) ≡ some a
    → (b ≡ false) × (o ≡ some a)
unless_some true o a e = absurd (let no : ⊥ = cc in no)
unless_some false o a e = (refl, e)

some_injective : {A : Type 0} (a b : A) → some a ≡ some b → a ≡ b
some_injective a b e = cc

stage_of :
    (subnet : Text) (t : Table) (repeated : Bool)
    → already_challenged subnet t ≡ repeated
    → (if repeated then block else challenge) ≢ challenge
    → ((if repeated then block else challenge) ≡ block) × ChallengedBefore subnet t
stage_of subnet t true e other = (refl, already_challenged-ChallengedBefore subnet t e)
stage_of subnet t false e other = absurd (other refl)

-- A subnet is flagged only if it was challenged often enough, from enough addresses, and none of
-- them has solved a challenge lately. The rule is a challenge, unless the table has an active
-- automatic challenge of the subnet that names this very detector; only then it is a block.
pub judge_subnet-Staged :
    (py : Python) (limits : DetectorConf) (solved : List Text) (window : ℕ) (ips : List Text)
    (subnet : Text) (total : ℕ) (t : Table) (p : Proposal)
    → judge_subnet py limits solved window ips (subnet, total) t ≡ some p
    → Staged limits solved ips subnet total t p
unfolding judge_subnet unsolved_subnet_rule
judge_subnet-Staged py limits solved window ips subnet total t p e =
    let rule =
      unsolved_subnet_rule py (λ n. py.str (whole n)) window limits.unsolved_subnet_min_challenged
        (length ips) (subnet, total) (already_challenged subnet t) in
    let solves = any (λ address. is_among address solved) ips in
    let (few, e') =
      unless_some
        (ltb total limits.unsolved_subnet_min_challenged
          || ltb (length ips) limits.unsolved_subnet_min_ips)
        (if solves then none else some rule) p e in
    let (unsolved, e'') = unless_some solves (some rule) p e' in
    let same = some_injective rule p e'' in
    let enough : ltb total limits.unsolved_subnet_min_challenged ≡ false = ground arith in
    let spread : ltb (length ips) limits.unsolved_subnet_min_ips ≡ false = ground arith in
    subst (Staged limits solved ips subnet total t) same (record {
      same_subnet = refl;
      enough = ltb_false→le _ _ enough;
      spread = ltb_false→le _ _ spread;
      unsolved = unsolved;
      stage = stage_of subnet t (already_challenged subnet t) refl;
    })
