-- ===== src/Core/Inbound/Build.antt =====
-- core/inbound.go: the inbound of each protocol. `v` is what the pointer Common of the
-- node points to, which the panel's client never leaves nil.
use Prim.Native.String.{◌++◌}
use zicnode.Prelude.{
  Bool, true, false, not, ◌&&◌, ◌||◌, String, Option, none, some, List, [], ◌∷◌, pos, ◌⊎◌, inl, inr,
  base64, itoa, ltb_ℤ, string_key, int_key, ◌==◌, if◌then◌else◌,
}
use zicnode.Panel.Config.{CommonNode, EncSettings}
use zicnode.Core.Inbound.{
  InboundError, unsupported_encryption, no_password, and_then, HttpHeader, tcp_config, FinalMask,
  Stream, stream_of, ShadowsocksServer, vless_decryption, vmess_settings, trojan_settings,
  shadowsocks_settings, hysteria_settings, tuic_settings, any_tls_settings, Inbound, inbound_of,
  ShadowsocksHttp, Formats, effective_transport_network, unmarshal_network_settings, raw_of,
  transport_stream,
}

-- VLESS and VMess have a stream only where there are settings.
unfoldable pub stream_if_set :
    {T : Type 0} → Formats T → CommonNode → InboundError ⊎ Option (Stream T)
unfolding effective_transport_network transport_stream
stream_if_set f v =
    let raw = raw_of v.network_settings in
    if raw == ""
    then inr none
    else and_then (transport_stream f (effective_transport_network v.network) raw)
        (λ s. inr (some s))

-- Trojan and AnyTLS have one of the node's network in any case.
unfoldable pub stream_in_any_case :
    {T : Type 0} → Formats T → CommonNode → InboundError ⊎ Option (Stream T)
unfolding effective_transport_network transport_stream
stream_in_any_case f v =
    let raw = raw_of v.network_settings in
    let network = effective_transport_network v.network in
    if raw == ""
    then inr (some (stream_of network))
    else and_then (transport_stream f network raw) (λ s. inr (some s))

abbrev padding_and_key : EncSettings → String
padding_and_key e =
    if e.server_padding == "" then e.private_key else e.server_padding ++ "." ++ e.private_key

unfoldable pub decryption_of : CommonNode → InboundError ⊎ String
decryption_of v =
    if v.encryption == ""
    then inr "none"
    else if v.encryption == "mlkem768x25519plus"
    then inr (
        "mlkem768x25519plus."
        ++ v.encryption_settings.mode
        ++ "."
        ++ v.encryption_settings.ticket
        ++ "."
        ++ padding_and_key v.encryption_settings)
    else inl (unsupported_encryption v.encryption)

unfoldable pub build_vless : {T : Type 0} → Formats T → CommonNode → InboundError ⊎ Inbound T
unfolding decryption_of stream_if_set
build_vless f v =
    and_then (decryption_of v)
      (λ d. and_then (stream_if_set f v) (λ s. inr (inbound_of "vless" (vless_decryption d) s)))

unfoldable pub build_vmess : {T : Type 0} → Formats T → CommonNode → InboundError ⊎ Inbound T
unfolding stream_if_set
build_vmess f v = and_then (stream_if_set f v) (λ s. inr (inbound_of "vmess" vmess_settings s))

unfoldable pub build_trojan : {T : Type 0} → Formats T → CommonNode → InboundError ⊎ Inbound T
unfolding stream_in_any_case
build_trojan f v =
    and_then (stream_in_any_case f v) (λ s. inr (inbound_of "trojan" trojan_settings s))

-- The http disguise is on where a path or a host is set.
unfoldable pub http_header : ShadowsocksHttp → Option HttpHeader
http_header h =
    if h.path == "" && h.host == ""
    then none
    else some (record {
      path = if h.path == "" then "/" else h.path;
      host = if h.host == "" then none else some h.host;
    })

abbrev is_there : {A : Type 0} → Option A → Bool
is_there none = false
is_there (some a) = true

abbrev pub disguised_stream : {T : Type 0} → ShadowsocksHttp → Option HttpHeader → Option (Stream T)
disguised_stream h header =
    if h.accept_proxy_protocol || is_there header
    then some
        (record (stream_of "tcp") { transport = some (tcp_config h.accept_proxy_protocol header) })
    else none

abbrev pub shadowsocks_server : CommonNode → String → List String → ShadowsocksServer
shadowsocks_server v random networks = record {
  cipher = v.cipher;
  password = v.server_key;
  user_cipher = if v.server_key == "" then v.cipher else "";
  user_password = if v.server_key == "" then random else base64 random;
  network_list = networks;
}

abbrev pub shadowsocks_of : {T : Type 0} → CommonNode → String → Option ShadowsocksHttp → Inbound T
shadowsocks_of v random none =
    inbound_of "shadowsocks"
      (shadowsocks_settings (shadowsocks_server v random ("tcp" ∷ "udp" ∷ []))) none
shadowsocks_of v random (some h) =
    let header = http_header h in
    inbound_of "shadowsocks"
      (shadowsocks_settings
        (shadowsocks_server v random (if is_there header then "tcp" ∷ [] else "tcp" ∷ "udp" ∷ [])))
      (disguised_stream h header)

-- `random` is the hexadecimal text of 32 random bytes. Empty settings decode to none.
abbrev pub with_random :
    {T : Type 0} → Formats T → CommonNode → Option String → InboundError ⊎ Inbound T
with_random f v none = inl no_password
with_random f v (some random) =
    and_then (unmarshal_network_settings f.shadowsocks (raw_of v.network_settings))
      (λ o. inr (shadowsocks_of v random o))

unfoldable pub build_shadowsocks :
    {T : Type 0} → Formats T → Option String → CommonNode → InboundError ⊎ Inbound T
unfolding base64 http_header unmarshal_network_settings
build_shadowsocks f random v = with_random f v random

unfoldable pub final_mask_of : CommonNode → FinalMask
unfolding itoa
final_mask_of v = record {
  brutal =
      if not v.ignore_client_bandwidth && (ltb_ℤ (pos 0) v.up_mbps || ltb_ℤ (pos 0) v.down_mbps)
      then some (itoa v.up_mbps ++ "mbps", itoa v.down_mbps ++ "mbps")
      else none;
  udp =
      if v.obfs == "" || v.obfs_password == ""
      then none
      else some (v.obfs, "{\"password\":\"" ++ v.obfs_password ++ "\"}");
}

unfoldable pub build_hysteria2 : {T : Type 0} → CommonNode → Inbound T
unfolding final_mask_of
build_hysteria2 v = inbound_of "hysteria" (hysteria_settings 2) (
    some (record (stream_of "hysteria") {
      hysteria_version = some 2;
      final_mask = some (final_mask_of v);
    }))

unfoldable pub build_tuic : {T : Type 0} → CommonNode → Inbound T
build_tuic v =
    inbound_of "tuic" (tuic_settings v.congestion_control v.zero_rtt_handshake)
      (some (stream_of "tuic"))

unfoldable pub build_any_tls : {T : Type 0} → Formats T → CommonNode → InboundError ⊎ Inbound T
unfolding stream_in_any_case
build_any_tls f v =
    and_then (stream_in_any_case f v)
      (λ s. inr (inbound_of "anytls" (any_tls_settings v.padding_scheme) s))
