-- ===== src/Core/Warp/Tests.antt =====
-- core/warp.go on concrete inputs: a registration whose answer is JSON.
use Prim.Native.String.{◌++◌}
use zicnode.Prelude.{
  store, trim_space, to_lower, load, value_of, equal_fold, contains, itoa, true, String, none, some,
  [], ◌∷◌, pos, ◌≡◌, ◌↔◌, refl, Json, Members, object, string, array, empty, item, last, member,
  string_key,
}
use zicnode.Panel.Config.{NodeInfo, WarpSettings, zero_warp, zero_node}
use zicnode.Core.Warp.{RuntimeConfig, normalize_warp_settings}
use zicnode.Core.Warp.Normal.{IsNormal, normalize_warp_settings-exact}
use zicnode.Core.Warp.Sidecar.{System, Disk}
use zicnode.Core.Warp.Resolve.{Service, Result, resolved, resolve_warp_runtime_config}
use zicnode.Core.Warp.Base64.{decode_string}
use zicnode.Core.Warp.Response.{runtime_from_warp_register_response}
use zicnode.Core.Warp.RoundTrip.{resolve_warp_runtime_config-again}
use zicnode.Core.Warp.Usable.{HasBlankPeer, IsUsable, resolve_warp_runtime_config-IsUsable}

abbrev text_field : String → String → Members → Members
text_field key value rest = member key (string value) rest

abbrev answer : Json
answer = object (
    member "config"
      (object (
        text_field "client_id" "TWFu" (
          member "peers" (array (item (object (text_field "public_key" " peer " last)) empty)) (
            member "interface"
              (object (member "addresses" (object (text_field "v4" "10.0.0.2" last)) last)) last))))
      last)

abbrev service : Service
service = record {
  seed = some (record { first = 255; middle = 1 ∷ []; final = 255 });
  public_bytes = λ bytes. some bytes;
  reply = λ key. some (record { status = pos 200; body = some answer });
}

abbrev no_service : Service
no_service = record { seed = none; public_bytes = λ bytes. none; reply = λ key. none }

abbrev sys : System
sys = record {
  warp_dir = " /tmp ";
  hex_sha256 = λ s. "0123456789abcdef";
  join = λ dir name. dir ++ "/" ++ name;
  makes_dir = λ path. true;
  writes = λ path. true;
  now = pos 0;
}

abbrev info : NodeInfo
info = record {
  id = pos 3;
  node_type = "vless";
  security = pos 0;
  push_interval = pos 0;
  pull_interval = pos 0;
  tag = "[host]-vless:3";
  common = some zero_node;
}

abbrev settings : WarpSettings
settings = record zero_warp { enable = true; domain_strategy = "ForceIP" }

abbrev run : Result × Disk
run = resolve_warp_runtime_config sys service info settings []

-- The runtime of the first registration.
abbrev registered_config : RuntimeConfig
registered_config = record {
  private_key = "+AF/";
  public_key = "+AF/";
  peer_public_key = "peer";
  endpoint = "engage.cloudflareclient.com:2408";
  addresses = "10.0.0.2/32" ∷ [];
  reserved = 77 ∷ 97 ∷ 110 ∷ [];
  mtu = pos 1280;
  domain_strategy = "ForceIP";
  source = "auto";
}

abbrev first_disk : Disk
first_disk =
    (
      "/tmp/0123456789ab-zicnode-3.json",
      some (record {
        version = pos 1;
        node_id = pos 3;
        node_tag = "[host]-vless:3";
        private_key = "+AF/";
        public_key = "+AF/";
        peer_public_key = "peer";
        endpoint = "engage.cloudflareclient.com:2408";
        addresses = "10.0.0.2/32" ∷ [];
        reserved = pos 77 ∷ pos 97 ∷ pos 110 ∷ [];
        created_at = pos 0;
        updated_at = pos 0;
      }),
    )
    ∷ []

first_run :
    resolve_warp_runtime_config sys service info settings []
    ≡ (resolved registered_config, first_disk)
unfolding resolve_warp_runtime_config runtime_from_warp_register_response decode_string trim_space
    to_lower load store value_of equal_fold contains itoa
first_run = refl

resolve_warp_runtime_config-again_example :
    resolve_warp_runtime_config sys no_service info settings first_disk
    ≡ (resolved (record registered_config { source = "sidecar" }), first_disk)
resolve_warp_runtime_config-again_example =
    resolve_warp_runtime_config-again sys service no_service info settings [] first_disk
      registered_config first_run

resolve_warp_runtime_config-IsUsable_example : IsUsable (HasBlankPeer sys info []) registered_config
resolve_warp_runtime_config-IsUsable_example =
    resolve_warp_runtime_config-IsUsable sys service info settings [] first_disk registered_config
      tt first_run

normalize_warp_settings-exact_example :
    ((normalize_warp_settings settings ≡ settings) ↔ IsNormal settings)
    × (normalize_warp_settings (normalize_warp_settings settings)
        ≡ normalize_warp_settings settings)
normalize_warp_settings-exact_example = normalize_warp_settings-exact settings
