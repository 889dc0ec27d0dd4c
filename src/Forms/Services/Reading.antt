-- ===== src/Forms/Services/Reading.antt =====
-- The counts are read, and Redis stays as it is.
use django_waf.Base.{ℕ, Option, none, some, Text, is_empty}
use django_waf.Exec.{◌>>=◌}
use django_waf.Exec.EnsuresAt.{Reads, Reads-pure, Reads-raise, Reads-if, Reads-try, Reads-bind}
use django_waf.Redis.{Redis}
use django_waf.Redis.Strings.{ReadLaws}
use django_waf.Forms.Services.{
  ip_key, signup_key, int_or_raise, count_in, read_count, credential_ip_count, signup_count,
}

module _ (r : Redis) (reads : ReadLaws r) (int : Text → Option ℕ) where
  number-Reads : (n : Option ℕ) → Reads (int_or_raise r int n)
  unfolding int_or_raise
  number-Reads none = Reads-raise
  number-Reads (some n) = Reads-pure n

  count_in-Reads : (raw : Option Text) → Reads (count_in r int raw)
  unfolding count_in
  count_in-Reads none = Reads-pure 0
  count_in-Reads (some raw) = number-Reads (int raw)

  read_count-Reads : (key : Text) → Reads (read_count r int key)
  unfolding read_count
  read_count-Reads key = Reads-try (r.get key >>= count_in r int) 0 (
      Reads-bind (r.get key) (count_in r int) (record { stays = reads.get_stays key })
        count_in-Reads)

  pub credential_ip_count-Reads : (ip : Text) → Reads (credential_ip_count r int ip)
  unfolding credential_ip_count
  credential_ip_count-Reads ip =
      Reads-if (is_empty ip) _ _ (Reads-pure 0) (read_count-Reads (ip_key ip))

  pub signup_count-Reads : (ip : Text) → Reads (signup_count r int ip)
  unfolding signup_count
  signup_count-Reads ip =
      Reads-if (is_empty ip) _ _ (Reads-pure 0) (read_count-Reads (signup_key ip))
