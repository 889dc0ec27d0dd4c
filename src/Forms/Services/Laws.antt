-- ===== src/Forms/Services/Laws.antt =====
-- The counters never raise; and the signal of an attack is sent once.
use django_waf.Base.{
  ℕ, ◌+◌, ◌≡◌, ◌≢◌, refl, Bool, true, false, Option, some, List, [], ◌∷◌, Text, text, ap,
  starts_with, leb, ◌&&◌, length, is_empty, if◌then◌else◌, ◌||◌, ltb, arith, ◌==◌, All,
}
use django_waf.Exec.Total.{Total, Total-pure, Total-if, Total-try}
use django_waf.Redis.{Redis}
use django_waf.Forms.Services.{
  account_key, ip_key, counts_of, failure_commands, record_credential_failure, record_signup,
  read_count, credential_ip_count, credential_account_count, signup_count, CredentialAttack,
  CredentialAttack, LoginWorld, send_if_crossed, after_failure, waf_record_credential_failure,
}

module _ (r : Redis) (sha256_hex : Text → Text) (int : Text → Option ℕ) where
  record-Total :
      (identifier ip : Text) (window_seconds : ℕ)
      → Total (record_credential_failure r sha256_hex identifier ip window_seconds)
  unfolding record_credential_failure
  record-Total identifier ip window_seconds =
      Total-if (is_empty identifier || is_empty ip) _ _ (Total-pure (0, 0)) (Total-try _ (0, 0))

  signup-Total : (ip : Text) (window_seconds : ℕ) → Total (record_signup r ip window_seconds)
  unfolding record_signup
  signup-Total ip window_seconds = Total-if (is_empty ip) _ _ (Total-pure 0) (Total-try _ 0)

  ip_count-Total : (ip : Text) → Total (credential_ip_count r int ip)
  unfolding credential_ip_count read_count
  ip_count-Total ip = Total-if (is_empty ip) _ _ (Total-pure 0) (Total-try _ 0)

  account_count-Total :
      (identifier : Text) → Total (credential_account_count r int sha256_hex identifier)
  unfolding credential_account_count read_count
  account_count-Total identifier = Total-if (is_empty identifier) _ _ (Total-pure 0) (Total-try _ 0)

  signup_count-Total : (ip : Text) → Total (signup_count r int ip)
  unfolding signup_count read_count
  signup_count-Total ip = Total-if (is_empty ip) _ _ (Total-pure 0) (Total-try _ 0)

  -- Whatever Redis does, an exception in any command included, the five functions on the counters
  -- return a number or a pair of numbers.
  pub counters-Total :
      (identifier ip : Text) (window_seconds : ℕ)
      → Total (record_credential_failure r sha256_hex identifier ip window_seconds)
        × Total (record_signup r ip window_seconds)
        × Total (credential_ip_count r int ip)
        × Total (credential_account_count r int sha256_hex identifier)
        × Total (signup_count r int ip)
  counters-Total identifier ip window_seconds = (
    record-Total identifier ip window_seconds,
    signup-Total ip window_seconds,
    ip_count-Total ip,
    account_count-Total identifier,
    signup_count-Total ip,
  )

-- INCR in a pipeline answers with the new count of its key; a transaction is not interleaved, and
-- no key expires meanwhile.
pub record CounterLaws (r : Redis) : Type 0 where
  pub count : r.Server → Text → ℕ
  pub execute_pair :
      (a b : Text) (ttl : ℕ) (s : r.Server)
      → a ≢ b
      → (x : ℕ) × (y : ℕ) × ((r.execute (failure_commands r a b ttl) s).0
          ≡ some ((count s a + 1) ∷ x ∷ (count s b + 1) ∷ y ∷ []))
        × (count (r.execute (failure_commands r a b ttl) s).1 a ≡ count s a + 1)

keys-ne : (h ip : Text) → account_key h ≢ ip_key ip
keys-ne h ip e =
    let same : true ≡ false = ap (λ k. starts_with k (text "waf:form:cred_fail:a")) e in
    let no : ⊥ = cc in no

module _ (r : Redis) (sha256_hex : Text → Text) (limit window_seconds : ℕ) (identifier : Text) where
  -- Failed logins for one identifier, from these addresses.
  pub failed_logins : List Text → LoginWorld r → LoginWorld r
  failed_logins [] w = w
  failed_logins (ip ∷ ips) w =
      failed_logins ips
        (waf_record_credential_failure r sha256_hex true limit window_seconds identifier ip w).1

  module _ (l : CounterLaws r) where
    counted : LoginWorld r → ℕ
    counted w = l.count w.server (account_key (sha256_hex identifier))

    abbrev one_if : Bool → ℕ
    one_if b = if b then 1 else 0

    one_failure :
        (ip : Text) (w : LoginWorld r)
        → is_empty identifier ≡ false
        → is_empty ip ≡ false
        → let after : LoginWorld r =
            (waf_record_credential_failure r sha256_hex true limit window_seconds identifier ip
              w).1 in
          (counted after ≡ counted w + 1)
          × (after.sent
              ≡ send_if_crossed r sha256_hex true limit window_seconds identifier ip
                  (counted w + 1)
                  w.sent)
    unfolding waf_record_credential_failure after_failure record_credential_failure counts_of
        counted
    one_failure ip w hi hp =
        let (x, y, answers, grown) =
          l.execute_pair (account_key (sha256_hex identifier)) (ip_key ip) window_seconds w.server
            (keys-ne (sha256_hex identifier) ip) in
        rw (hi, hp, answers) (grown, refl)

    sent_lem :
        (ip : Text) (n : ℕ) (sent : List CredentialAttack)
        → length (send_if_crossed r sha256_hex true limit window_seconds identifier ip (n + 1) sent)
          ≡ length sent + one_if (n + 1 == limit)
    sent_lem ip n sent = ground arith

    failures_lem :
        (ips : List Text) (w : LoginWorld r)
        → is_empty identifier ≡ false
        → All (λ ip. is_empty ip ≡ false) ips
        → length (failed_logins ips w).sent
          ≡ length w.sent + one_if (ltb (counted w) limit && leb limit (counted w + length ips))
    unfolding failed_logins
    failures_lem [] w hi _ = ground arith
    failures_lem (ip ∷ ips) w hi (hp, h) =
        let (grown, sent) = one_failure ip w hi hp in
        let after : LoginWorld r =
          (waf_record_credential_failure r sha256_hex true limit window_seconds identifier ip
            w).1 in
        ground (
          arith,
          failures_lem ips after hi h,
          grown,
          ap length sent,
          sent_lem ip (counted w) w.sent,
        )

    -- Of any number of failed logins for one identifier, the signal of an attack is sent once if
    -- they take the identifier's count from below the limit to the limit or past it, and never
    -- otherwise; provided that there is a Redis client, that INCR counts, and that the identifier
    -- and the addresses are not empty.
    pub failures-once :
        (ips : List Text) (w : LoginWorld r)
        → is_empty identifier ≡ false
        → All (λ ip. is_empty ip ≡ false) ips
        → length (failed_logins ips w).sent
          ≡ length w.sent
            + (if ltb (l.count w.server (account_key (sha256_hex identifier))) limit
                  && leb limit (l.count w.server (account_key (sha256_hex identifier)) + length ips)
                then 1
                else 0)
    unfolding counted
    failures-once = failures_lem
