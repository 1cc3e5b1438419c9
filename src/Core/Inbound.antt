-- ===== src/Core/Inbound.antt =====
-- core/inbound.go: the inbound of a node as the data that the engine is given: what it is made of, and
-- the settings of a transport.
pub mod Build
pub mod Assemble
pub mod Start
pub mod Proxy
pub mod Served
mod Tests
use zicnode.Prelude.{
  ℕ, Bool, true, false, not, ◌&&◌, ◌||◌, String, Option, none, some, List, [], ◌∷◌, ℤ, ◌⊎◌, inl,
  inr, trim_space, has_prefix, to_lower, string_key, ◌==◌, if◌then◌else◌,
}

pub data InboundError : Type 0 where
  unsupported_type : String → InboundError
  unsupported_encryption : String → InboundError
  bad_network : InboundError
  array_settings : InboundError
  undecodable : InboundError
  no_cert_info : InboundError
  no_password : InboundError

-- The next step of a function that may end with an error.
abbrev pub and_then : {A B : Type 0} → InboundError ⊎ A → (A → InboundError ⊎ B) → InboundError ⊎ B
and_then (inl e) k = inl e
and_then (inr a) k = k a

-- The http header that disguises Shadowsocks: its path and its host.
pub record HttpHeader : Type 0 where
  pub path : String
  pub host : Option String

-- The settings of a transport: those that the engine decodes, under the name of its field, or those
-- that are put together for Shadowsocks.
pub data Transport (T : Type 0) : Type 0 where
  decoded : String → T → Transport T
  tcp_config : Bool → Option HttpHeader → Transport T

pub record TlsServer : Type 0 where
  pub cert_file : String
  pub key_file : String
  pub ocsp_stapling : ℕ
  pub reject_unknown_sni : Bool
  pub alpn : Option (List String)

pub record RealityServer : Type 0 where
  pub dest : String
  pub xver : ℕ
  pub show : Bool
  pub server_names : List String
  pub private_key : String
  pub short_ids : List String
  pub mldsa65_seed : String

-- The congestion control of Hysteria, up and down, and its obfuscation: type and settings.
pub record FinalMask : Type 0 where
  pub brutal : Option (String × String)
  pub udp : Option (String × String)

pub record Stream (T : Type 0) : Type 0 where
  pub network : Option String
  pub transport : Option (Transport T)
  pub accept_proxy_protocol : Option Bool
  pub security : String
  pub tls : Option TlsServer
  pub reality : Option RealityServer
  pub hysteria_version : Option ℕ
  pub final_mask : Option FinalMask

abbrev pub empty_stream : {T : Type 0} → Stream T
empty_stream = record {
  network = none;
  transport = none;
  accept_proxy_protocol = none;
  security = "";
  tls = none;
  reality = none;
  hysteria_version = none;
  final_mask = none;
}

abbrev pub stream_of : {T : Type 0} → String → Stream T
stream_of network = record empty_stream { network = some network }

pub record ShadowsocksServer : Type 0 where
  pub cipher : String
  pub password : String
  pub user_cipher : String
  pub user_password : String
  pub network_list : List String

pub data Settings : Type 0 where
  vless_decryption : String → Settings
  vmess_settings : Settings
  trojan_settings : Settings
  shadowsocks_settings : ShadowsocksServer → Settings
  hysteria_settings : ℕ → Settings
  tuic_settings : String → Bool → Settings
  any_tls_settings : List String → Settings

-- The configuration of an inbound before the engine builds it. The address is what its parser reads.
pub record Inbound (T : Type 0) : Type 0 where
  pub protocol : String
  pub settings : Settings
  pub stream : Option (Stream T)
  pub port : ℕ
  pub listen_on : String
  pub dest_override : List String
  pub tag : String

abbrev pub inbound_of : {T : Type 0} → String → Settings → Option (Stream T) → Inbound T
inbound_of protocol settings stream = record {
  protocol = protocol;
  settings = settings;
  stream = stream;
  port = 0;
  listen_on = "";
  dest_override = [];
  tag = "";
}

pub record ShadowsocksHttp : Type 0 where
  pub accept_proxy_protocol : Bool
  pub path : String
  pub host : String

-- The decoders of JSON: into the settings of a transport, the PROXY protocol, the http disguise.
pub record Formats (T : Type 0) : Type 0 where
  pub transport : String → String → Option T
  pub proxy_protocol : String → Option Bool
  pub shadowsocks : String → Option ShadowsocksHttp

unfoldable pub effective_transport_network : String → String
unfolding to_lower
effective_transport_network network =
    let n = to_lower network in if n == "" then "tcp" else if n == "http" then "httpupgrade" else n

-- No settings leave the target as it is, which is none.
abbrev pub decoded_or : {A : Type 0} → Option A → InboundError ⊎ Option A
decoded_or none = inl undecodable
decoded_or (some a) = inr (some a)

unfoldable pub unmarshal_network_settings :
    {A : Type 0} → (String → Option A) → String → InboundError ⊎ Option A
unfolding trim_space has_prefix
unmarshal_network_settings decode raw =
    let t = trim_space raw in
    if t == "" || t == "null"
    then inr none
    else if t == "[]"
    then decoded_or (decode "{}")
    else if has_prefix t "["
    then inl array_settings
    else decoded_or (decode t)

abbrev pub raw_of : Option String → String
raw_of none = ""
raw_of (some raw) = raw

abbrev pub under : {T : Type 0} → String → Option T → Option (Transport T)
under field none = none
under field (some t) = some (decoded field t)

-- The field of the engine's settings that a network has.
unfoldable pub transport_field : String → Option String
transport_field network =
    if network == "tcp" || network == "ws" || network == "grpc" || network == "httpupgrade"
    then some network
    else if network == "splithttp" || network == "xhttp"
    then some "xhttp"
    else none

abbrev pub decoded_field :
    {T : Type 0} → Formats T → Option String → String → String → InboundError ⊎ Stream T
decoded_field f none network raw = inl bad_network
decoded_field f (some field) network raw =
    and_then (unmarshal_network_settings (f.transport field) raw)
      (λ t. inr (record (stream_of network) { transport = under field t }))

-- The stream of a network with its settings.
unfoldable pub transport_stream :
    {T : Type 0} → Formats T → String → String → InboundError ⊎ Stream T
unfolding unmarshal_network_settings transport_field
transport_stream f network raw = decoded_field f (transport_field network) network raw
