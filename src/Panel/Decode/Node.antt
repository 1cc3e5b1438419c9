-- ===== src/Panel/Decode/Node.antt =====
-- api/zicboard/node.go: unmarshalFlexibleObject and UnmarshalJSON of CommonNode.
use zicnode.Prelude.{
  ◌>>=◌, String, Option, none, some, List, [], ◌∷◌, ℤ, trim_space, string_key, ◌==◌, if◌then◌else◌,
  Json, Members, null, string, array, empty, items, field_of,
}
use zicnode.Panel.Config.{
  Route, BaseConfig, WarpSettings, TlsSettings, EncSettings, CommonNode, zero_warp, zero_tls,
  zero_enc, zero_node,
}
use zicnode.Panel.Decode.{
  Decoder, flexible_string, flexible_string_slice, flexible_int, flexible_bool, json_raw_or_nil,
}
use zicnode.Panel.Decode.Records.{
  of_object, unmarshal_route, unmarshal_base, unmarshal_warp, unmarshal_tls, unmarshal_enc,
}

abbrev of_text {ℓ} : {A : Type ℓ} → A → (Json → Option A) → Option Json → Option A
of_text zero read none = none
of_text zero read (some v) = read v

-- An object, or a text that holds one; an empty list, which is written `[]`, and an empty text leave
-- the zero value.
unfoldable pub unmarshal_flexible_object {ℓ} :
    {A : Type ℓ} → Decoder → A → (Json → Option A) → Option Json → Option A
unmarshal_flexible_object d zero read none = some zero
unmarshal_flexible_object d zero read (some null) = some zero
unmarshal_flexible_object d zero read (some (array empty)) = some zero
unmarshal_flexible_object d zero read (some (string s)) =
    let t = trim_space s in if t == "" then some zero else of_text zero read (d.parse t)
unmarshal_flexible_object d zero read (some v) = read v

abbrev pub all_of {ℓ κ} : {A : Type ℓ} {B : Type κ} → (A → Option B) → List A → Option (List B)
all_of read [] = some []
all_of read (v ∷ vs) = elim (read v) [
  | none ↦ none
  | some x ↦ elim (all_of read vs) [ none ↦ none | some xs ↦ some (x ∷ xs) ]
]

-- What encoding/json makes of a slice of routes and of a pointer.
unfoldable pub unmarshal_routes : Decoder → Option Json → Option (List Route)
unfolding unmarshal_route
unmarshal_routes d none = some []
unmarshal_routes d (some null) = some []
unmarshal_routes d (some (array vs)) = all_of (unmarshal_route d) (items vs)
unmarshal_routes d _ = none

unfoldable pub unmarshal_base_pointer : Decoder → Option Json → Option (Option BaseConfig)
unfolding unmarshal_base
unmarshal_base_pointer d none = some none
unmarshal_base_pointer d (some null) = some none
unmarshal_base_pointer d (some v) = elim (unmarshal_base d v) [
  | none ↦ none
  | some b ↦ some (some b)
]

-- The fields whose decoding may fail.
pub record Parts : Type 0 where
  pub routes : List Route
  pub base_config : Option BaseConfig
  pub tls_settings : TlsSettings
  pub encryption_settings : EncSettings
  pub warp_settings : WarpSettings

unfoldable pub read_parts : Decoder → Members → Option Parts
unfolding field_of unmarshal_flexible_object unmarshal_routes unmarshal_base_pointer unmarshal_warp
    unmarshal_tls unmarshal_enc
read_parts d ms = do
  routes ← unmarshal_routes d (field_of "routes" ms)
  base ← unmarshal_base_pointer d (field_of "base_config" ms)
  tls ← unmarshal_flexible_object d zero_tls (unmarshal_tls d) (field_of "tls_settings" ms)
  enc ← unmarshal_flexible_object d zero_enc (unmarshal_enc d) (field_of "encryption_settings" ms)
  warp ← unmarshal_flexible_object d zero_warp (unmarshal_warp d) (field_of "warp_settings" ms)
  some (record {
    routes = routes;
    base_config = base;
    tls_settings = tls;
    encryption_settings = enc;
    warp_settings = warp;
  })

unfoldable pub with_parts : Decoder → Members → Parts → CommonNode
unfolding field_of flexible_string flexible_string_slice flexible_int flexible_bool json_raw_or_nil
with_parts d ms parts =
    let text : String → String = λ key. flexible_string d (field_of key ms) in
    let int : String → ℤ = λ key. flexible_int d (field_of key ms) in
    record {
      protocol = text "protocol";
      host = text "host";
      listen_ip = text "listen_ip";
      server_port = int "server_port";
      routes = parts.routes;
      base_config = parts.base_config;
      tls = int "tls";
      tls_settings = parts.tls_settings;
      cert_info = none;
      network = text "network";
      network_settings = json_raw_or_nil d (field_of "network_settings" ms);
      encryption = text "encryption";
      encryption_settings = parts.encryption_settings;
      server_name = text "server_name";
      flow = text "flow";
      cipher = text "cipher";
      server_key = text "server_key";
      congestion_control = text "congestion_control";
      zero_rtt_handshake = flexible_bool d (field_of "zero_rtt_handshake" ms);
      padding_scheme = flexible_string_slice d (field_of "padding_scheme" ms);
      warp_settings = parts.warp_settings;
      up_mbps = int "up_mbps";
      down_mbps = int "down_mbps";
      obfs = text "obfs";
      obfs_password = text "obfs_password";
      ignore_client_bandwidth = flexible_bool d (field_of "ignore_client_bandwidth" ms);
    }

unfoldable pub unmarshal_node : Decoder → Json → Option CommonNode
unfolding read_parts with_parts
unmarshal_node d =
    of_object zero_node (λ ms. do parts ← read_parts d ms; some (with_parts d ms parts))
