-- ===== src/Panel/Config.antt =====
-- api/zicboard/node.go: the records that describe a node, with the fields of the source. A byte is a
-- number below 256, a `json.RawMessage` its text or none, a nil
-- pointer none.
use zicnode.Prelude.{ℕ, Bool, false, String, Option, none, List, [], ℤ, pos, Map, Json}

pub record Route : Type 0 where
  pub id : ℤ
  pub match_rules : List String
  pub action : String
  pub action_value : Option String

-- The intervals are of type `any`: what the JSON had there.
pub record BaseConfig : Type 0 where
  pub panel : String
  pub node_type : String
  pub push_interval : Option Json
  pub pull_interval : Option Json
  pub device_online_min_traffic : ℤ
  pub node_report_min_traffic : ℤ

pub record WarpSettings : Type 0 where
  pub enable : Bool
  pub mode : String
  pub fail_policy : String
  pub mtu : ℤ
  pub domain_strategy : String
  pub private_key : String
  pub peer_public_key : String
  pub endpoint : String
  pub addresses : List String
  pub reserved : List ℕ

pub record TlsSettings : Type 0 where
  pub server_name : String
  pub server_names : List String
  pub dest : String
  pub server_port : String
  pub short_id : String
  pub short_ids : List String
  pub private_key : String
  pub mldsa65_seed : String
  pub xver : ℕ
  pub cert_mode : String
  pub cert_file : String
  pub key_file : String
  pub provider : String
  pub dns_env : String
  pub self_fallback : Bool
  pub reject_unknown_sni : String

pub record CertInfo : Type 0 where
  pub cert_mode : String
  pub cert_file : String
  pub key_file : String
  pub email : String
  pub cert_domain : String
  pub dns_env : Map String String
  pub provider : String
  pub self_fallback : Bool
  pub reject_unknown_sni : Bool

pub record EncSettings : Type 0 where
  pub mode : String
  pub ticket : String
  pub server_padding : String
  pub private_key : String

pub record CommonNode : Type 0 where
  pub protocol : String
  pub host : String
  pub listen_ip : String
  pub server_port : ℤ
  pub routes : List Route
  pub base_config : Option BaseConfig
  pub tls : ℤ
  pub tls_settings : TlsSettings
  pub cert_info : Option CertInfo
  pub network : String
  pub network_settings : Option String
  pub encryption : String
  pub encryption_settings : EncSettings
  pub server_name : String
  pub flow : String
  pub cipher : String
  pub server_key : String
  pub congestion_control : String
  pub zero_rtt_handshake : Bool
  pub padding_scheme : List String
  pub warp_settings : WarpSettings
  pub up_mbps : ℤ
  pub down_mbps : ℤ
  pub obfs : String
  pub obfs_password : String
  pub ignore_client_bandwidth : Bool

-- The intervals are durations in nanoseconds.
pub record NodeInfo : Type 0 where
  pub id : ℤ
  pub node_type : String
  pub security : ℤ
  pub push_interval : ℤ
  pub pull_interval : ℤ
  pub tag : String
  pub common : Option CommonNode

-- The zero values of Go.
abbrev pub zero_route : Route
zero_route = record { id = pos 0; match_rules = []; action = ""; action_value = none }

abbrev pub zero_base : BaseConfig
zero_base = record {
  panel = "";
  node_type = "";
  push_interval = none;
  pull_interval = none;
  device_online_min_traffic = pos 0;
  node_report_min_traffic = pos 0;
}

abbrev pub zero_warp : WarpSettings
zero_warp = record {
  enable = false;
  mode = "";
  fail_policy = "";
  mtu = pos 0;
  domain_strategy = "";
  private_key = "";
  peer_public_key = "";
  endpoint = "";
  addresses = [];
  reserved = [];
}

abbrev pub zero_tls : TlsSettings
zero_tls = record {
  server_name = "";
  server_names = [];
  dest = "";
  server_port = "";
  short_id = "";
  short_ids = [];
  private_key = "";
  mldsa65_seed = "";
  xver = 0;
  cert_mode = "";
  cert_file = "";
  key_file = "";
  provider = "";
  dns_env = "";
  self_fallback = false;
  reject_unknown_sni = "";
}

abbrev pub zero_enc : EncSettings
zero_enc = record { mode = ""; ticket = ""; server_padding = ""; private_key = "" }

abbrev pub zero_node : CommonNode
zero_node = record {
  protocol = "";
  host = "";
  listen_ip = "";
  server_port = pos 0;
  routes = [];
  base_config = none;
  tls = pos 0;
  tls_settings = zero_tls;
  cert_info = none;
  network = "";
  network_settings = none;
  encryption = "";
  encryption_settings = zero_enc;
  server_name = "";
  flow = "";
  cipher = "";
  server_key = "";
  congestion_control = "";
  zero_rtt_handshake = false;
  padding_scheme = [];
  warp_settings = zero_warp;
  up_mbps = pos 0;
  down_mbps = pos 0;
  obfs = "";
  obfs_password = "";
  ignore_client_bandwidth = false;
}
