-- ===== src/Panel/Client/Tests.antt =====
-- api/zicboard on a concrete body of a node.
use zicnode.Prelude.{
  mul64, wrap64, ◌*ℤ◌, false, String, none, some, [], ◌∷◌, pos, ◌≡◌, ◌↔◌, refl, Json, Members,
  object, string, array, empty, last, member, if◌then◌else◌, ◌==◌, string_key, int_key, to_lower,
  trim_space, equal_fold, atoi, has_prefix, fields_of,
}
use zicnode.Panel.Config.{NodeInfo}
use zicnode.Panel.Decode.{Decoder}
use zicnode.Panel.Decode.Records.{unmarshal_warp, read_warp}
use zicnode.Panel.Decode.Exact.{unmarshal_warp-normalized}
use zicnode.Panel.Client.{Client, response, new_client}
use zicnode.Panel.Client.NodeInfo.{Fetched, changed, unchanged, failed, undecodable, get_node_info}
use zicnode.Panel.Client.Once.{get_node_info-once}
use zicnode.Panel.Client.Accepted.{IsAccepted, get_node_info-accepts}
use zicnode.Core.Warp.{AreBytes, normalize_warp_settings}

abbrev warp : Members
warp = member "enable" (string "yes") (member "reserved" (string "1, 2,300") last)

abbrev base : Members
base =
    member "panel" (string "zicboard")
      (member "node_type" (string "zicnode") (member "push_interval" (string "60") last))

abbrev node : Json
node = object (
    member "Protocol" (string "trojan")
      (member "base_config" (object base) (member "tls_settings" (array empty) last)))

abbrev decoder : Decoder
decoder = record {
  parse = λ s. if s == "node" then some node else none;
  compact = λ v. "";
  parse_float = λ s. none;
}

abbrev client : Client
client = new_client (record {
  api_host = "host";
  node_id = pos 7;
  api_key = "key";
  timeout = pos 0;
  retry_count = none;
})

abbrev digest : String → String
digest s = s

-- A body that is not JSON is an error the first time only.
first_answer :
    (get_node_info decoder digest (response (pos 200) "e" "bad") client).0 ≡ failed undecodable
unfolding get_node_info new_client
first_answer = refl

get_node_info-once_example :
    let c' = (get_node_info decoder digest (response (pos 200) "e" "bad") client).1 in
    get_node_info decoder digest (response (pos 200) "e" "bad") c' ≡ (unchanged, c')
get_node_info-once_example = get_node_info-once decoder digest (pos 200) "e" "e" "bad" client

abbrev node_or : Fetched → NodeInfo → NodeInfo
node_or (changed n) default = n
node_or _ default = default

abbrev info : NodeInfo
info = node_or (get_node_info decoder digest (response (pos 200) "e" "node") client).0 (record {
  id = pos 0;
  node_type = "";
  security = pos 0;
  push_interval = pos 0;
  pull_interval = pos 0;
  tag = "";
  common = none;
})

info_values :
    (info.tag ≡ "[host]-trojan:7")
    × (info.security ≡ pos 1)
    × (info.push_interval ≡ pos 60000000000)
unfolding get_node_info new_client to_lower mul64 wrap64 ◌*ℤ◌ atoi
info_values = (refl, refl, refl)

get_node_info-accepts_example :
    ((get_node_info decoder digest (response (pos 200) "e" "node") client).0 ≡ changed info)
    ↔ ((pos 200 == pos 304) ≡ false)
      × ((client.response_body_hash == digest "node") ≡ false)
      × IsAccepted decoder client "node" info
get_node_info-accepts_example =
    get_node_info-accepts decoder digest (pos 200) "e" "node" client info

warp_there : unmarshal_warp decoder (object warp) ≡ some (read_warp decoder warp)
unfolding unmarshal_warp
warp_there = refl

unmarshal_warp-normalized_example :
    (normalize_warp_settings (read_warp decoder warp) ≡ read_warp decoder warp)
    × AreBytes (read_warp decoder warp).reserved
unmarshal_warp-normalized_example =
    unmarshal_warp-normalized decoder warp (read_warp decoder warp) warp_there

reserved_bytes : (read_warp decoder warp).reserved ≡ 1 ∷ 2 ∷ []
unfolding read_warp equal_fold to_lower atoi trim_space has_prefix fields_of
reserved_bytes = refl
