-- ===== src/Examples/Addresses.antt =====
-- Examples for the address of a client behind one trusted proxy.
use django_waf.Base.{◌≡◌, refl, true, false, [], ◌∷◌, ◌++◌, Text, text, is_empty}
use django_waf.Client.Address.{
  ProxyConf, is_trusted_peer, is_trusted_proxy, resolve_from_forwarded_chain, resolve_client_ip,
}
use django_waf.Client.Address.Laws.{resolve_client_ip-unspoofable}
use django_waf.Examples.Deployment.{platform}

abbrev proxy : Text
proxy = text "10.0.0.9"

abbrev conf : ProxyConf
conf = record {
  trusted_proxies = proxy ∷ [];
  trusted_unix_socket = false;
  trust_x_forwarded_for = false;
}

abbrev appended : Text
appended = text "203.0.113.5,10.0.0.9"

peer_is_trusted : is_trusted_peer platform conf proxy ≡ true
unfolding is_trusted_proxy
peer_is_trusted = refl

chain_has_hop :
    is_empty (resolve_from_forwarded_chain platform appended conf.trusted_proxies) ≡ false
unfolding resolve_from_forwarded_chain is_trusted_proxy
chain_has_hop = refl

resolve_client_ip-unspoofable_example :
    resolve_client_ip platform conf proxy (text "1.2.3.4" ++ b',' ∷ appended)
    ≡ resolve_client_ip platform conf proxy appended
resolve_client_ip-unspoofable_example =
    resolve_client_ip-unspoofable platform conf proxy (text "1.2.3.4") appended peer_is_trusted
      chain_has_hop
