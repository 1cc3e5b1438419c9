-- ===== src/Panel/Client/NodeInfo.antt =====
-- api/zicboard/node.go: `GetNodeInfo` and `CoreFingerprint`.
use Prim.Native.String.{◌++◌}
use zicnode.Prelude.{
  Bool, not, ◌||◌, String, Option, none, some, List, [], ◌∷◌, ℤ, pos, trim_space, itoa, index_of,
  take_text, drop_text, fields_of, Map, store, string_key, int_key, ◌==◌, if◌then◌else◌, ◌>>=◌, suc,
}
use zicnode.Panel.Config.{BaseConfig, CommonNode, NodeInfo, CertInfo}
use zicnode.Panel.Node.{effective_security, cert_target, security_none}
use zicnode.Panel.Decode.{Decoder, interval_to_time}
use zicnode.Panel.Decode.Node.{unmarshal_node}
use zicnode.Panel.Client.{Client, Reply, call_failed, no_response, response}

pub data NodeError : Type 0 where
  failed_call : NodeError
  nil_response : NodeError
  undecodable : NodeError
  missing_base_config : NodeError
  unsupported_panel : String → NodeError
  unsupported_node_type : String → NodeError
  unsupported_protocol : String → NodeError

pub data Fetched : Type 0 where
  failed : NodeError → Fetched
  unchanged : Fetched
  changed : NodeInfo → Fetched

abbrev pub is_supported : String → Bool
is_supported p =
    p == "vmess"
    || p == "trojan"
    || p == "hysteria2"
    || p == "tuic"
    || p == "anytls"
    || p == "vless"

abbrev file_or : String → ℤ → String → String
file_or given id extension =
    if given == "" then "/etc/zicnode/node-" ++ itoa id ++ extension else given

-- strings.SplitN at the first `=`, none where there is none
abbrev key_value : String → Option (String × String)
key_value env = elim (index_of env "=") [
  | none ↦ none
  | some n ↦ elim (take_text n env) [ none ↦ none | some k ↦ some (k, drop_text (suc n) env) ]
]

abbrev add_env : Option (String × String) → Map String String → Map String String
add_env none m = m
add_env (some (k, v)) m = if trim_space k == "" then m else store (trim_space k) (trim_space v) m

unfoldable pub parse_dns_env : List String → Map String String → Map String String
unfolding trim_space index_of take_text drop_text
parse_dns_env [] m = m
parse_dns_env (env ∷ envs) m = parse_dns_env envs (add_env (key_value env) m)

unfoldable pub cert_info_of : ℤ → CommonNode → CertInfo
unfolding itoa cert_target trim_space parse_dns_env fields_of
cert_info_of id cm = record {
  cert_mode = trim_space cm.tls_settings.cert_mode;
  cert_file = file_or cm.tls_settings.cert_file id ".cer";
  key_file = file_or cm.tls_settings.key_file id ".key";
  email = "contact@zicnet.vn";
  cert_domain = cert_target cm;
  dns_env = parse_dns_env (fields_of cm.tls_settings.dns_env) [];
  provider = cm.tls_settings.provider;
  self_fallback = cm.tls_settings.self_fallback;
  reject_unknown_sni = cm.tls_settings.reject_unknown_sni == "1";
}

unfoldable pub node_info_of : Decoder → Client → CommonNode → BaseConfig → ℤ → NodeInfo
unfolding cert_info_of interval_to_time itoa
node_info_of d c cm base security = record {
  id = c.node_id;
  node_type = cm.protocol;
  security = security;
  push_interval = interval_to_time d base.push_interval;
  pull_interval = interval_to_time d base.pull_interval;
  tag = "[" ++ c.api_host ++ "]-" ++ cm.protocol ++ ":" ++ itoa c.node_id;
  common = some (record cm { cert_info = some (cert_info_of c.node_id cm) });
}

abbrev pub base_error : BaseConfig → Option NodeError
base_error base =
    if not (base.panel == "zicboard")
    then some (unsupported_panel base.panel)
    else if not (base.node_type == "zicnode")
    then some (unsupported_node_type base.node_type)
    else none

unfoldable pub protocol_security : CommonNode → Option ℤ
unfolding effective_security
protocol_security cm =
    if is_supported cm.protocol
    then some (effective_security cm)
    else if cm.protocol == "shadowsocks"
    then some security_none
    else none

abbrev pub node_or_error :
    Decoder → Client → CommonNode → BaseConfig → Option NodeError → Option ℤ → Fetched
node_or_error d c cm base (some e) security = failed e
node_or_error d c cm base none none = failed (unsupported_protocol cm.protocol)
node_or_error d c cm base none (some security) = changed (node_info_of d c cm base security)

unfoldable pub check_base : Decoder → Client → CommonNode → BaseConfig → Fetched
unfolding node_info_of protocol_security
check_base d c cm base = node_or_error d c cm base (base_error base) (protocol_security cm)

abbrev pub with_base : Decoder → Client → CommonNode → Option BaseConfig → Fetched
with_base d c cm none = failed missing_base_config
with_base d c cm (some base) = check_base d c cm base

abbrev pub read_common : Decoder → Client → Option CommonNode → Fetched
read_common d c none = failed undecodable
read_common d c (some cm) = with_base d c cm cm.base_config

unfoldable pub read_body : Decoder → Client → String → Fetched
unfolding check_base unmarshal_node
read_body d c body = read_common d c (d.parse body >>= unmarshal_node d)

-- `hex_sha256` is the digest of the body. The digest is kept before the body is decoded.
unfoldable pub get_node_info :
    Decoder → (String → String) → Reply String → Client → Fetched × Client
unfolding read_body
get_node_info d hex_sha256 call_failed c = (failed failed_call, c)
get_node_info d hex_sha256 no_response c = (failed nil_response, c)
get_node_info d hex_sha256 (response status etag body) c =
    if status == pos 304
    then (unchanged, c)
    else if c.response_body_hash == hex_sha256 body
    then (unchanged, c)
    else (read_body d c body, record c { response_body_hash = hex_sha256 body; node_etag = etag })

-- What CoreFingerprint encodes: the intervals and the thresholds are left out.
pub record Fingerprint : Type 0 where
  pub node_type : String
  pub security : ℤ
  pub common : Option CommonNode

abbrev pub without_base : Option CommonNode → Option CommonNode
without_base none = none
without_base (some c) = some (record c { base_config = none })

-- `digest` is the encoding as JSON and its SHA-256.
unfoldable pub core_fingerprint : (Fingerprint → String) → Option NodeInfo → String
core_fingerprint digest none = ""
core_fingerprint digest (some n) =
    digest
      (record { node_type = n.node_type; security = n.security; common = without_base n.common })
