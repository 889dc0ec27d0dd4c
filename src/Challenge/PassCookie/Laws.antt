-- ===== src/Challenge/PassCookie/Laws.antt =====
-- The cookie that is issued, read back; and what a cookie that is accepted must be.
use django_waf.Base.{
  ℕ, ◌+◌, ◌*◌, ◌/◌, ◌≤◌, ◌≡◌, refl, true, not, ◌&&◌, Option, none, some, Text, ltb, ◌=ᵗ◌, =ᵗ_refl,
  =ᵗ_iff, rsplit_once, NoChar, arith, rsplit_once-delimiter, partition-delimiter,
  rsplit_once-eq_some,
}
use django_waf.RateLimiter.{second}
use django_waf.Challenge.PassCookie.{
  delimiter, version, ◌|||◌, Fields, split_fields, normalise_ip, issue_pass_cookie, is_unexpired,
  fields_hold, signed_holds, validate_pass_cookie,
}

split_fields-value_prefix :
    (token ip expiry : Text)
    → NoChar delimiter token
    → NoChar delimiter ip
    → split_fields (version ||| token ||| ip ||| expiry)
      ≡ some (record { version = version; token = token; ip = ip; expiry = expiry })
unfolding split_fields
split_fields-value_prefix token ip expiry ht hi = simp (
  partition-delimiter delimiter version (token ||| ip ||| expiry) (omega arith),
  partition-delimiter delimiter token (ip ||| expiry) ht,
  partition-delimiter delimiter ip expiry hi,
)

module _ (sign : Text → Text) (canonical : Text → Option Text) (show : ℕ → Text)
    (read : Text → Option ℕ) where
  -- A cookie that was issued for a token and an address is accepted exactly while its life lasts and
  -- exactly from addresses of the same canonical form; provided that the token, the canonical form
  -- and the signature have no delimiter, and that `int` reads back what `str` wrote.
  pub validate-issue :
      (token ip ip' : Text) (ttl issued now : ℕ)
      → NoChar delimiter token
      → NoChar delimiter (normalise_ip canonical ip)
      → ((s : Text) → NoChar delimiter (sign s))
      → ((n : ℕ) → read (show n) ≡ some n)
      → validate_pass_cookie sign canonical read
          (issue_pass_cookie sign canonical show token ip ttl issued)
          ip'
          now
        ≡ (not (ltb ((issued / second + ttl) * second) now)
            && normalise_ip canonical ip =ᵗ normalise_ip canonical ip')
  unfolding validate_pass_cookie issue_pass_cookie
  validate-issue token ip ip' ttl issued now ht hi hs hr =
      let canon : Text = normalise_ip canonical ip in
      let expiry : Text = show (issued / second + ttl) in
      let prefix : Text = version ||| token ||| canon ||| expiry in
      simp
        (
          rsplit_once-delimiter delimiter prefix (sign prefix) (hs prefix),
          =ᵗ_refl,
          split_fields-value_prefix token canon expiry ht hi,
          hr,
        )
        (ground arith)

is_unexpired_lem :
    (o : Option ℕ) (now : ℕ)
    → is_unexpired o now ≡ true
    → (n : ℕ) × (o ≡ some n) × (now ≤ n * second)
unfolding is_unexpired
is_unexpired_lem none now h = cc
is_unexpired_lem (some n) now h = (n, refl, ground arith)

module _ (sign : Text → Text) (canonical : Text → Option Text) (read : Text → Option ℕ) where
  -- What a cookie that is accepted at `now` from `ip` says.
  abbrev pub Grants : Text → ℕ → Fields → Type 0
  Grants ip now f =
      (f.version ≡ version)
      × (f.ip ≡ normalise_ip canonical ip)
      × ((expiry_ts : ℕ) × (read f.expiry ≡ some expiry_ts) × (now ≤ expiry_ts * second))

  fields_hold_lem :
      (o : Option Fields) (ip : Text) (now : ℕ)
      → fields_hold sign canonical read o ip now ≡ true
      → (f : Fields) × (o ≡ some f) × Grants ip now f
  unfolding fields_hold
  fields_hold_lem none ip now h = cc
  fields_hold_lem (some f) ip now h = (
    f,
    refl,
    (
      ground (arith, =ᵗ_iff f.version version),
      ground (arith, =ᵗ_iff f.ip (normalise_ip canonical ip)),
      is_unexpired_lem (read f.expiry) now (ground arith),
    ),
  )

  signed_holds_lem :
      (o : Option (Text × Text)) (ip : Text) (now : ℕ)
      → signed_holds sign canonical read o ip now ≡ true
      → (prefix : Text) × (f : Fields) × (o ≡ some (prefix, sign prefix))
        × (split_fields prefix ≡ some f)
        × Grants ip now f
  unfolding signed_holds
  signed_holds_lem none ip now h = cc
  signed_holds_lem (some (prefix, signature)) ip now h =
      let same : sign prefix ≡ signature = ground (arith, =ᵗ_iff (sign prefix) signature) in
      let (f, read_as, grants) = fields_hold_lem (split_fields prefix) ip now (ground arith) in
      (prefix, f, rw same, read_as, grants)

  -- A cookie that is accepted is some text followed by the signature of that very text, and the text
  -- names this version, the canonical form of the client's address, and a time that has not passed.
  pub validate_sound :
      (cookie ip : Text) (now : ℕ)
      → validate_pass_cookie sign canonical read cookie ip now ≡ true
      → (prefix : Text) × (f : Fields) × (cookie ≡ prefix ||| sign prefix)
        × (split_fields prefix ≡ some f)
        × Grants ip now f
  unfolding validate_pass_cookie
  validate_sound cookie ip now h =
      let (prefix, f, found, read_as, grants) =
        signed_holds_lem (rsplit_once delimiter cookie) ip now h in
      (prefix, f, rsplit_once-eq_some delimiter cookie prefix (sign prefix) found, read_as, grants)
