-- ===== src/Core/Inbound/Assemble.antt =====
-- core/inbound.go: buildInbound, from the protocol to the security. `v` is what the pointer Common of
-- the node points to, which the panel's client never leaves nil.
use Prim.Native.String.{◌++◌}
use zicnode.Prelude.{
  ℕ, Bool, true, false, ◌||◌, String, Option, none, some, [], ◌∷◌, ◌-◌, ◌%◌, ◌^◌, ℤ, pos, negsuc,
  ◌⊎◌, inl, inr, string_key, int_key, ◌==◌, if◌then◌else◌,
}
use zicnode.Panel.Config.{NodeInfo, CommonNode, CertInfo, TlsSettings}
use zicnode.Panel.Node.{
  security_tls, security_reality, effective_server_names, effective_short_ids, primary_server_name,
}
use zicnode.Core.Inbound.{
  InboundError, unsupported_type, no_cert_info, and_then, TlsServer, RealityServer, Stream,
  empty_stream, stream_of, Inbound, Formats, effective_transport_network,
  unmarshal_network_settings, raw_of,
}
use zicnode.Core.Inbound.Build.{
  build_vless, build_vmess, build_trojan, build_shadowsocks, build_hysteria2, build_tuic,
  build_any_tls,
}

unfoldable pub build_protocol :
    {T : Type 0} → Formats T → Option String → String → CommonNode → InboundError ⊎ Inbound T
unfolding build_vless build_vmess build_trojan build_shadowsocks build_hysteria2 build_tuic
    build_any_tls
build_protocol f random node_type v =
    if node_type == "vless"
    then build_vless f v
    else if node_type == "vmess"
    then build_vmess f v
    else if node_type == "trojan"
    then build_trojan f v
    else if node_type == "shadowsocks"
    then build_shadowsocks f random v
    else if node_type == "hysteria2"
    then inr (build_hysteria2 v)
    else if node_type == "tuic"
    then inr (build_tuic v)
    else if node_type == "anytls"
    then build_any_tls f v
    else inl (unsupported_type node_type)

abbrev pub stream_or : {T : Type 0} → Stream T → Option (Stream T) → Stream T
stream_or s none = s
stream_or s (some s') = s'

abbrev pub accepting_proxy : {T : Type 0} → CommonNode → Option Bool → Inbound T → Inbound T
accepting_proxy v (some true) i = record i {
  stream = some (record (stream_or (stream_of (effective_transport_network v.network)) i.stream) {
    accept_proxy_protocol = some true;
  });
}
accepting_proxy v _ i = i

unfoldable pub with_proxy_protocol :
    {T : Type 0} → Formats T → CommonNode → Inbound T → InboundError ⊎ Inbound T
unfolding effective_transport_network unmarshal_network_settings
with_proxy_protocol f v i =
    and_then (unmarshal_network_settings f.proxy_protocol (raw_of v.network_settings))
      (λ o. inr (accepting_proxy v o i))

unfoldable pub as_uint32 : ℤ → ℕ
as_uint32 (pos n) = n % 2 ^ 32
as_uint32 (negsuc n) = 2 ^ 32 - 1 - n % 2 ^ 32

unfoldable pub with_server : {T : Type 0} → CommonNode → Inbound T → Inbound T
unfolding as_uint32
with_server v i = record i {
  port = as_uint32 v.server_port;
  listen_on = v.listen_ip;
  dest_override = "http" ∷ "tls" ∷ "quic" ∷ [];
}

unfoldable pub tls_server : String → CertInfo → TlsServer
tls_server node_type c = record {
  cert_file = c.cert_file;
  key_file = c.key_file;
  ocsp_stapling = 3600;
  reject_unknown_sni = c.reject_unknown_sni;
  alpn = if node_type == "hysteria2" || node_type == "tuic" then some ("h3" ∷ []) else none;
}

unfoldable pub reality_server : TlsSettings → RealityServer
unfolding effective_server_names effective_short_ids primary_server_name
reality_server t = record {
  dest = (if t.dest == "" then primary_server_name t else t.dest) ++ ":" ++ t.server_port;
  xver = t.xver;
  show = false;
  server_names = effective_server_names t;
  private_key = t.private_key;
  short_ids = effective_short_ids t;
  mldsa65_seed = t.mldsa65_seed;
}

abbrev pub over_tls : {T : Type 0} → String → Option CertInfo → Inbound T → InboundError ⊎ Inbound T
over_tls node_type none i = inl no_cert_info
over_tls node_type (some c) i = inr (
    if c.cert_mode == "none" || c.cert_mode == "" then i else record i {
      stream = some (record (stream_or empty_stream i.stream) {
        security = "tls";
        tls = some (tls_server node_type c);
      });
    })

abbrev pub over_reality : {T : Type 0} → TlsSettings → Inbound T → Inbound T
over_reality t i = record i {
  stream = some (record (stream_or empty_stream i.stream) {
    security = "reality";
    reality = some (reality_server t);
  });
}

unfoldable pub with_security :
    {T : Type 0} → NodeInfo → CommonNode → Inbound T → InboundError ⊎ Inbound T
unfolding tls_server reality_server
with_security info v i =
    if info.security == security_tls
    then over_tls info.node_type v.cert_info i
    else if info.security == security_reality
    then inr (over_reality v.tls_settings i)
    else inr i

-- `random` is the hexadecimal text of 32 random bytes. The engine builds the result.
unfoldable pub build_inbound :
    {T : Type 0}
    → Formats T
    → Option String
    → NodeInfo
    → CommonNode
    → String
    → InboundError ⊎ Inbound T
unfolding build_protocol with_proxy_protocol with_server with_security
build_inbound f random info v tag = and_then (build_protocol f random info.node_type v) (λ i.
    and_then (with_proxy_protocol f v i)
      (λ i. and_then (with_security info v (with_server v i)) (λ i. inr (record i { tag = tag }))))
