-- ===== src/Middleware/SignedCookies/Laws.antt =====
-- services/trusted_user_service.py and services/site_password_service.py: when a signed cookie that
-- was set is accepted.
use django_waf.Base.{
  ℕ, ◌+◌, ◌*◌, ◌≤◌, true, false, ◌≡◌, ◌↔◌, some, Text, is_empty, =ᵗ_iff, partition-delimiter, arith,
}
use django_waf.RateLimiter.{second}
use django_waf.Rules.{Platform}
use django_waf.Client.Address.{ProxyConf}
use django_waf.Middleware.SignedCookies.{
  Signer, SignerLaws, CookieConf, Visit, trusted_marker, verified_marker, build_payload, unsigned,
  client_of, names_client, payload_holds, set_trusted_cookie, has_valid_trusted_cookie,
  set_verified_cookie, is_verified, has_valid_cookie,
}

names_client-payload :
    (signer : Signer) (conf : CookieConf) (p : Platform) (proxies : ProxyConf)
    (issued client : Text)
    → (payload_holds signer conf p proxies (some (build_payload issued)) client ≡ true)
      ↔ (issued ≡ client)
unfolding payload_holds names_client
names_client-payload signer conf p proxies issued client =
    rw (partition-delimiter b':' trusted_marker issued (omega arith)) (=ᵗ_iff issued client)

-- A trusted-user cookie that was set on one visit is accepted on another exactly if the feature is
-- on, the cookie is no older than its life, and the second visit comes from the same client address
-- as the first; provided that the signer reads back what it signs while it is no older than
-- max_age, and signs to a text that is not empty.
pub has_valid_trusted_cookie-set :
    (signer : Signer) (laws : SignerLaws signer) (conf : CookieConf) (p : Platform)
    (proxies : ProxyConf) (login visit : Visit) (at now : ℕ)
    → is_empty (set_trusted_cookie signer conf p proxies login at).value ≡ false
    → visit.trusted_cookie ≡ some (set_trusted_cookie signer conf p proxies login at).value
    → (has_valid_trusted_cookie signer conf p proxies visit now ≡ true) ↔ (
        (conf.enabled ≡ true)
        × (now ≤ at + conf.ttl * second)
        × (client_of signer conf p proxies login ≡ client_of signer conf p proxies visit))
unfolding has_valid_trusted_cookie set_trusted_cookie unsigned payload_holds
has_valid_trusted_cookie-set signer laws conf p proxies login visit at now filled sent =
    let payload = build_payload (client_of signer conf p proxies login) in
    rw (sent, filled, laws.unsign-sign payload at conf.ttl now)
      (ground (
        arith,
        names_client-payload signer conf p proxies (client_of signer conf p proxies login)
            (client_of signer conf p proxies visit),
      ))

-- A cookie of the site's password that was set on one visit is accepted on another exactly if it is
-- no older than its life; under the same two conditions on the signer.
pub has_valid_cookie-set :
    (signer : Signer) (laws : SignerLaws signer) (conf : CookieConf) (guess visit : Visit)
    (at now : ℕ)
    → is_empty (set_verified_cookie signer conf guess at).value ≡ false
    → visit.password_cookie ≡ some (set_verified_cookie signer conf guess at).value
    → (has_valid_cookie signer conf visit now ≡ true) ↔ (now ≤ at + conf.ttl * second)
unfolding has_valid_cookie set_verified_cookie unsigned is_verified
has_valid_cookie-set signer laws conf guess visit at now filled sent =
    rw (sent, filled, laws.unsign-sign verified_marker at conf.ttl now) (ground arith)
