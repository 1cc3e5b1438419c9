-- ===== src/Panel/Decode/Records.antt =====
-- api/zicboard/node.go: the methods UnmarshalJSON. `none` is an error. Null leaves the zero value, and
-- what is neither null nor an object is an error.
use zicnode.Prelude.{
  ◌||◌, Bool, String, Option, none, some, List, [], ◌∷◌, pos, leb_ℤ, trim_space, to_lower,
  string_key, ◌==◌, if◌then◌else◌, Json, Members, null, object, field_of,
}
use zicnode.Panel.Config.{
  Route, BaseConfig, WarpSettings, TlsSettings, EncSettings, zero_route, zero_base, zero_warp,
  zero_tls, zero_enc,
}
use zicnode.Panel.Decode.{
  Decoder, json_raw_is_empty, flexible_string, flexible_string_slice, flexible_csv_string_slice,
  flexible_byte_slice, flexible_int, flexible_uint64, flexible_bool, flexible_bool_string,
}

-- What UnmarshalJSON makes of a value, by what it makes of an object.
abbrev pub of_object {ℓ} : {A : Type ℓ} → A → (Members → Option A) → Json → Option A
of_object zero read null = some zero
of_object zero read (object ms) = read ms
of_object zero read _ = none

abbrev action_value : Decoder → Option Json → Option String
action_value d raw = if json_raw_is_empty raw then none else some (flexible_string d raw)

unfoldable pub read_route : Decoder → Members → Route
unfolding field_of flexible_int flexible_string_slice flexible_string json_raw_is_empty
read_route d ms = record {
  id = flexible_int d (field_of "id" ms);
  match_rules = flexible_string_slice d (field_of "match" ms);
  action = flexible_string d (field_of "action" ms);
  action_value = action_value d (field_of "action_value" ms);
}

unfoldable pub unmarshal_route : Decoder → Json → Option Route
unfolding read_route
unmarshal_route d = of_object zero_route (λ ms. some (read_route d ms))

unfoldable pub read_base : Decoder → Members → BaseConfig
unfolding field_of flexible_int flexible_string
read_base d ms = record {
  panel = flexible_string d (field_of "panel" ms);
  node_type = flexible_string d (field_of "node_type" ms);
  push_interval = field_of "push_interval" ms;
  pull_interval = field_of "pull_interval" ms;
  device_online_min_traffic = flexible_int d (field_of "device_online_min_traffic" ms);
  node_report_min_traffic = flexible_int d (field_of "node_report_min_traffic" ms);
}

unfoldable pub unmarshal_base : Decoder → Json → Option BaseConfig
unfolding read_base
unmarshal_base d = of_object zero_base (λ ms. some (read_base d ms))

unfoldable pub is_warp_domain_strategy : String → Bool
is_warp_domain_strategy value =
    let v = to_lower (trim_space value) in
    v == "forceip"
    || v == "forceipv4"
    || v == "forceipv6"
    || v == "forceipv4v6"
    || v == "forceipv6v4"

abbrev pub word : String → String → String → String
word value one other = if to_lower (trim_space value) == one then one else other

abbrev pub text_or : String → String → String
text_or value default = if value == "" then default else value

abbrev pub list_or : List String → List String → List String
list_or [] default = default
list_or (x ∷ xs) default = x ∷ xs

unfoldable pub read_warp : Decoder → Members → WarpSettings
unfolding field_of flexible_bool flexible_string flexible_int flexible_csv_string_slice
    flexible_byte_slice is_warp_domain_strategy
read_warp d ms =
    let text : String → String = λ key. flexible_string d (field_of key ms) in
    let mtu = flexible_int d (field_of "mtu" ms) in
    let strategy = trim_space (text "domain_strategy") in
    record {
      enable = flexible_bool d (field_of "enable" ms);
      mode = word (text "mode") "manual" "auto";
      fail_policy = word (text "fail_policy") "block" "direct";
      mtu = if leb_ℤ mtu (pos 0) then pos 1280 else mtu;
      domain_strategy = if is_warp_domain_strategy strategy then strategy else "ForceIPv4v6";
      private_key = trim_space (text "private_key");
      peer_public_key = trim_space (text "peer_public_key");
      endpoint = text_or (trim_space (text "endpoint")) "engage.cloudflareclient.com:2408";
      addresses =
          list_or (flexible_csv_string_slice d (field_of "addresses" ms))
            ("172.16.0.2/32" ∷ "2606:4700:110:8765::2/128" ∷ []);
      reserved = flexible_byte_slice d (field_of "reserved" ms);
    }

unfoldable pub unmarshal_warp : Decoder → Json → Option WarpSettings
unfolding read_warp
unmarshal_warp d = of_object zero_warp (λ ms. some (read_warp d ms))

unfoldable pub read_tls : Decoder → Members → TlsSettings
unfolding field_of flexible_bool flexible_string flexible_string_slice flexible_uint64
    flexible_bool_string
read_tls d ms =
    let text : String → String = λ key. flexible_string d (field_of key ms) in
    record {
      server_name = text "server_name";
      server_names = flexible_string_slice d (field_of "server_names" ms);
      dest = text "dest";
      server_port = text "server_port";
      short_id = text "short_id";
      short_ids = flexible_string_slice d (field_of "short_ids" ms);
      private_key = text "private_key";
      mldsa65_seed = text "mldsa65Seed";
      xver = flexible_uint64 d (field_of "xver" ms);
      cert_mode = text "cert_mode";
      cert_file = text "cert_file";
      key_file = text "key_file";
      provider = text "provider";
      dns_env = text "dns_env";
      self_fallback = flexible_bool d (field_of "self_fallback" ms);
      reject_unknown_sni = flexible_bool_string d (field_of "reject_unknown_sni" ms);
    }

unfoldable pub unmarshal_tls : Decoder → Json → Option TlsSettings
unfolding read_tls
unmarshal_tls d = of_object zero_tls (λ ms. some (read_tls d ms))

unfoldable pub read_enc : Decoder → Members → EncSettings
unfolding field_of flexible_string
read_enc d ms = record {
  mode = flexible_string d (field_of "mode" ms);
  ticket = flexible_string d (field_of "ticket" ms);
  server_padding = flexible_string d (field_of "server_padding" ms);
  private_key = flexible_string d (field_of "private_key" ms);
}

unfoldable pub unmarshal_enc : Decoder → Json → Option EncSettings
unfolding read_enc
unmarshal_enc d = of_object zero_enc (λ ms. some (read_enc d ms))
