-- ===== src/Core/Warp/Resolve.antt =====
-- core/warp.go: `resolveWarpRuntimeConfig` with the registration of an identity, and the outbound
-- that is built of it. Random bytes, the curve, the answer of the service and the engine's builder
-- are arguments.
use zicnode.Prelude.{
  true, false, ℕ, Bool, true, ◌||◌, String, Option, none, some, List, [], ◌∷◌, ◌++◌, ℤ, pos, ◌+◌,
  ◌-◌, ◌%◌, leb_ℤ, ltb_ℤ, string_key, ◌==◌, if◌then◌else◌, Json, Members, null, object,
}
use zicnode.Panel.Config.{CommonNode, NodeInfo, WarpSettings}
use zicnode.Core.Warp.{
  RuntimeConfig, warp_outbound_tag, normalize_warp_settings, has_manual_warp_identity,
  runtime_from_warp_settings, byte_slice_to_ints,
}
use zicnode.Core.Warp.Base64.{encode_bytes}
use zicnode.Core.Warp.Response.{runtime_from_warp_register_response}
use zicnode.Core.Warp.Sidecar.{System, Disk, load_warp_sidecar, save_warp_sidecar}

pub data WarpError : Type 0 where
  manual_without_keys : WarpError
  no_keys : WarpError
  no_answer : WarpError
  bad_status : ℤ → WarpError
  bad_body : WarpError
  no_peer_key : WarpError
  not_saved : WarpError
  not_built : WarpError

pub data Result : Type 0 where
  failed : WarpError → Result
  resolved : RuntimeConfig → Result

-- The 32 random bytes: the first, the thirty that follow, and the last.
pub record Seed : Type 0 where
  pub first : ℕ
  pub middle : List ℕ
  pub final : ℕ

-- An answer over HTTP: its status, and what its body decodes to.
pub record Reply : Type 0 where
  pub status : ℤ
  pub body : Option Json

-- What a registration meets: the random bytes, the curve's public key, the answer.
pub record Service : Type 0 where
  pub seed : Option Seed
  pub public_bytes : List ℕ → Option (List ℕ)
  pub reply : String → Option Reply

-- privateBytes[0] &= 248 and privateBytes[31] = (privateBytes[31] & 127) | 64
unfoldable pub clamp : Seed → List ℕ
clamp seed = (seed.first - seed.first % 8) ∷ seed.middle ++ (seed.final % 64 + 64) ∷ []

unfoldable pub generate_wire_guard_key_pair : Service → Option (String × String)
unfolding clamp encode_bytes
generate_wire_guard_key_pair service = elim service.seed [
  | none ↦ none
  | some seed ↦ elim (service.public_bytes (clamp seed)) [
    | none ↦ none
    | some key ↦ some (encode_bytes (clamp seed), encode_bytes key)
  ]
]

-- json.Unmarshal into a map
abbrev pub decoded_map : Option Json → Option (Option Members)
decoded_map (some (object ms)) = some (some ms)
decoded_map (some null) = some none
decoded_map _ = none

abbrev pub registered_as : Option RuntimeConfig → Result
registered_as none = failed no_peer_key
registered_as (some c) = resolved (record c { source = "auto" })

abbrev pub read_reply : WarpSettings → String → String → Reply → Result
read_reply s private_key public_key reply =
    if ltb_ℤ reply.status (pos 200) || leb_ℤ (pos 300) reply.status
    then failed (bad_status reply.status)
    else elim (decoded_map reply.body) [
      | none ↦ failed bad_body
      | some raw ↦ registered_as (runtime_from_warp_register_response raw s private_key public_key)
    ]

unfoldable pub register_warp_identity : Service → WarpSettings → Result
unfolding generate_wire_guard_key_pair
register_warp_identity service s = elim (generate_wire_guard_key_pair service) [
  | none ↦ failed no_keys
  | some keys ↦ elim (service.reply keys.1) [
    | none ↦ failed no_answer
    | some reply ↦ read_reply s keys.0 keys.1 reply
  ]
]

abbrev pub kept : RuntimeConfig → Disk → Option Disk → Result × Disk
kept c disk none = (failed not_saved, disk)
kept c disk (some disk') = (resolved c, disk')

abbrev pub keep_registered : System → NodeInfo → Disk → Result → Result × Disk
keep_registered sys info disk (failed e) = (failed e, disk)
keep_registered sys info disk (resolved c) = kept c disk (save_warp_sidecar sys info c disk)

abbrev pub from_sidecar : System → NodeInfo → Disk → Option RuntimeConfig → Result → Result × Disk
from_sidecar sys info disk (some c) registered = (resolved c, disk)
from_sidecar sys info disk none registered = keep_registered sys info disk registered

-- The keys of the settings first, and no others in the manual mode.
abbrev pub manual_first : Bool → Bool → RuntimeConfig → Disk → Result × Disk → Result × Disk
manual_first true manual c disk r = (resolved c, disk)
manual_first false true c disk r = (failed manual_without_keys, disk)
manual_first false false c disk r = r

-- The answer and the disk that is left, for the settings of a node.
unfoldable pub resolve_warp_runtime_config :
    System → Service → NodeInfo → WarpSettings → Disk → Result × Disk
unfolding normalize_warp_settings has_manual_warp_identity runtime_from_warp_settings
    load_warp_sidecar save_warp_sidecar register_warp_identity
resolve_warp_runtime_config sys service info settings disk =
    let s = normalize_warp_settings settings in
    manual_first (has_manual_warp_identity s) (s.mode == "manual")
      (runtime_from_warp_settings s "manual") disk
      (from_sidecar sys info disk (load_warp_sidecar sys info s disk)
        (register_warp_identity service s))

-- The settings of the engine's WireGuard outbound.
pub record Outbound : Type 0 where
  pub tag : String
  pub secret_key : String
  pub address : List String
  pub peer_public_key : String
  pub endpoint : String
  pub allowed_ips : List String
  pub mtu : ℤ
  pub domain_strategy : String
  pub no_kernel_tun : Bool
  pub reserved : Option (List ℤ)

abbrev reserved_of : List ℕ → Option (List ℤ)
reserved_of [] = none
reserved_of (b ∷ bs) = some (byte_slice_to_ints (b ∷ bs))

unfoldable pub outbound_of : String → RuntimeConfig → Outbound
outbound_of tag c = record {
  tag = tag;
  secret_key = c.private_key;
  address = c.addresses;
  peer_public_key = c.peer_public_key;
  endpoint = c.endpoint;
  allowed_ips = "0.0.0.0/0" ∷ "::/0" ∷ [];
  mtu = c.mtu;
  domain_strategy = c.domain_strategy;
  no_kernel_tun = true;
  reserved = reserved_of c.reserved;
}

-- What buildWarpOutbound answers: nothing, an error with the tag, or what the engine built.
pub data Built {ℓ} (H : Type ℓ) : Type ℓ where
  nothing : Built H
  refused : String → WarpError → Built H
  built : H → String → Built H

abbrev pub handled {ℓ} : {H : Type ℓ} → String → Option H → Built H
handled tag none = refused tag not_built
handled tag (some h) = built h tag

abbrev pub built_of {ℓ} : {H : Type ℓ} → (Outbound → Option H) → String → Result → Built H
built_of build tag (failed e) = refused tag e
built_of build tag (resolved c) = handled tag (build (outbound_of tag c))

abbrev pub build_if {ℓ} :
    {H : Type ℓ}
    → (Outbound → Option H)
    → System
    → Service
    → NodeInfo
    → WarpSettings
    → Disk
    → Bool
    → Built H × Disk
build_if build sys service info settings disk true =
    let r = resolve_warp_runtime_config sys service info settings disk in
    (built_of build (warp_outbound_tag (some info)) r.0, r.1)
build_if build sys service info settings disk false = (nothing, disk)

abbrev pub build_common {ℓ} :
    {H : Type ℓ}
    → (Outbound → Option H)
    → System
    → Service
    → NodeInfo
    → Disk
    → Option CommonNode
    → Built H × Disk
build_common build sys service info disk none = (nothing, disk)
build_common build sys service info disk (some c) =
    build_if build sys service info c.warp_settings disk c.warp_settings.enable

unfoldable pub build_warp_outbound {ℓ} :
    {H : Type ℓ} → (Outbound → Option H) → System → Service → NodeInfo → Disk → Built H × Disk
unfolding resolve_warp_runtime_config warp_outbound_tag outbound_of
build_warp_outbound build sys service info disk =
    build_common build sys service info disk info.common
