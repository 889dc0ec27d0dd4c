-- ===== src/Forms/Services.antt =====
-- forms/services/markers.py, forms/services/counters.py and forms/credentials.py: the one-shot
-- marker of a token, and the counters of failed logins and of signups.
--
-- `int` is Python's, `sha256_hex` is the hash of an identifier. The signal's receivers are the
-- operator's: that one raises is caught, and only the signal itself is kept.
pub mod Laws
pub mod Reading
use django_waf.Base.{
  ℕ, Bool, true, false, not, ◌&&◌, ◌||◌, Option, none, some, List, [], ◌∷◌, ◌++◌, Text, text, ltb,
  ◌==◌, if◌then◌else◌, is_empty,
}
use django_waf.Exec.{Exec, pure, raise, try_except, ◌>>=◌, ◌>>◌}
use django_waf.Redis.{Redis, Command, incr_command, expire_command}

abbrev pub marker_key : Text → Text
marker_key nonce = text "waf:form:token:" ++ nonce

abbrev pub account_key : Text → Text
account_key identifier_hash = text "waf:form:cred_fail:account:" ++ identifier_hash

abbrev pub ip_key : Text → Text
ip_key ip = text "waf:form:cred_fail:ip:" ++ ip

abbrev pub signup_key : Text → Text
signup_key ip = text "waf:form:signup:" ++ ip

pub record CredentialAttack : Type 0 where
  pub identifier_hash : Text
  pub attempt_count : ℕ
  pub window_seconds : ℕ
  pub ip : Text

module _ (r : Redis) where
  unfoldable pub issue_marker : Text → ℕ → Exec r.Server (Unit {0})
  issue_marker nonce ttl_seconds = r.setex (marker_key nonce) ttl_seconds (text "1")

  unfoldable pub marker_exists : Text → Exec r.Server Bool
  marker_exists nonce = r.exists (marker_key nonce)

  unfoldable pub consume_marker : Text → Exec r.Server (Unit {0})
  consume_marker nonce = r.delete (marker_key nonce)

  -- `int(results[0])` and `int(results[2])`, or 0 where there are fewer than three results.
  counts_of : List ℕ → ℕ × ℕ
  counts_of (account_count ∷ _ ∷ ip_count ∷ _) = (account_count, ip_count)
  counts_of _ = (0, 0)

  first_of : List ℕ → ℕ
  first_of [] = 0
  first_of (count ∷ _) = count

  abbrev failure_commands : Text → Text → ℕ → List Command
  failure_commands account ip window_seconds =
      incr_command account
      ∷ expire_command account window_seconds
      ∷ incr_command ip
      ∷ expire_command ip window_seconds
      ∷ []

  module _ (sha256_hex : Text → Text) where
    unfoldable pub record_credential_failure : Text → Text → ℕ → Exec r.Server (ℕ × ℕ)
    unfolding counts_of
    record_credential_failure identifier ip window_seconds =
        if is_empty identifier || is_empty ip
        then pure (0, 0)
        else try_except
            (r.execute
                (failure_commands (account_key (sha256_hex identifier)) (ip_key ip) window_seconds)
              >>= λ results. pure (counts_of results))
            (pure (0, 0))

  unfoldable pub record_signup : Text → ℕ → Exec r.Server ℕ
  unfolding first_of
  record_signup ip window_seconds =
      if is_empty ip
      then pure 0
      else try_except
          (r.execute
              (incr_command (signup_key ip) ∷ expire_command (signup_key ip) window_seconds ∷ [])
            >>= λ results. pure (first_of results))
          (pure 0)

  module _ (int : Text → Option ℕ) where
    int_or_raise : Option ℕ → Exec r.Server ℕ
    int_or_raise none = raise
    int_or_raise (some n) = pure n

    count_in : Option Text → Exec r.Server ℕ
    count_in none = pure 0
    count_in (some raw) = int_or_raise (int raw)

    -- The body that the three reads share.
    read_count : Text → Exec r.Server ℕ
    unfolding int_or_raise count_in
    read_count key = try_except (r.get key >>= count_in) (pure 0)

    unfoldable pub credential_ip_count : Text → Exec r.Server ℕ
    unfolding read_count
    credential_ip_count ip = if is_empty ip then pure 0 else read_count (ip_key ip)

    unfoldable pub credential_account_count : (Text → Text) → Text → Exec r.Server ℕ
    unfolding read_count
    credential_account_count sha256_hex identifier =
        if is_empty identifier then pure 0 else read_count (account_key (sha256_hex identifier))

    unfoldable pub signup_count : Text → Exec r.Server ℕ
    unfolding read_count
    signup_count ip = if is_empty ip then pure 0 else read_count (signup_key ip)

  pub record LoginWorld : Type 0 where
    pub server : r.Server
    pub sent : List CredentialAttack

module _ (r : Redis) (sha256_hex : Text → Text) (has_redis : Bool) (limit window_seconds : ℕ) where
  abbrev send_if_crossed : Text → Text → ℕ → List CredentialAttack → List CredentialAttack
  send_if_crossed identifier ip account_count sent =
      if ltb 0 account_count && account_count == limit
      then record {
        identifier_hash = sha256_hex identifier;
        attempt_count = account_count;
        window_seconds = window_seconds;
        ip = ip;
      }
        ∷ sent
      else sent

  after_failure :
      Text
      → Text
      → List CredentialAttack
      → Option (ℕ × ℕ) × r.Server
      → Option (ℕ × ℕ) × LoginWorld r
  after_failure identifier ip sent (none, server) = (none, record { server = server; sent = sent })
  after_failure identifier ip sent (some (account_count, ip_count), server) = (
    some (account_count, ip_count),
    record { server = server; sent = send_if_crossed identifier ip account_count sent },
  )

  -- `ip` is what `resolve_client_ip` finds, `has_redis` whether there is a client.
  unfoldable pub waf_record_credential_failure : Text → Text → Exec (LoginWorld r) (ℕ × ℕ)
  unfolding after_failure
  waf_record_credential_failure identifier ip w =
      if is_empty identifier || is_empty ip || not has_redis
      then pure (0, 0) w
      else after_failure identifier ip w.sent
          (record_credential_failure r sha256_hex identifier ip window_seconds w.server)
