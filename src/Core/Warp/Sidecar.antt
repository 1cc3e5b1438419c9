-- ===== src/Core/Warp/Sidecar.antt =====
-- core/warp.go: the sidecar, a file of JSON that keeps a registered identity. A file holds the record
-- that its JSON decodes to, or none if that fails.
use zicnode.Prelude.{
  Bool, ◌&&◌, ◌||◌, String, Option, none, some, List, [], ◌∷◌, ℤ, pos, ltb, Map, load, store,
  trim_space, has_prefix, index_of, take_text, drop_text, itoa, string_key, ◌==◌, if◌then◌else◌,
}
use Prim.Native.String.{◌++◌}
use zicnode.Panel.Config.{NodeInfo, WarpSettings}
use zicnode.Core.Warp.{
  RuntimeConfig, warp_default_endpoint, clean_string_list, first_non_empty,
  non_default_warp_endpoint, byte_slice_to_ints, ints_to_byte_slice,
}
use zicnode.Core.Warp.Response.{or_bytes, choose_addresses}

pub record Sidecar : Type 0 where
  pub version : ℤ
  pub node_id : ℤ
  pub node_tag : String
  pub private_key : String
  pub public_key : String
  pub peer_public_key : String
  pub endpoint : String
  pub addresses : List String
  pub reserved : List ℤ
  pub created_at : ℤ
  pub updated_at : ℤ

-- A write that fails leaves the disk as it is. What the system gives: the variable ZICNODE_WARP_DIR, the hexadecimal digits of SHA-256,
-- filepath.Join, and whether a directory and a file can be made.
pub record System : Type 0 where
  pub warp_dir : String
  pub hex_sha256 : String → String
  pub join : String → String → String
  pub makes_dir : String → Bool
  pub writes : String → Bool
  pub now : ℤ

abbrev pub Disk : Type 0
Disk = Map String (Option Sidecar)

-- What stands between the brackets at the start of a tag.
abbrev bracketed : String → Option String
bracketed tag =
    if has_prefix tag "["
    then elim (index_of tag "]") [
      | none ↦ none
      | some end ↦
          (if ltb 1 end
            then elim (take_text end tag) [ none ↦ none | some t ↦ some (drop_text 1 t) ]
            else none)
    ]
    else none

unfoldable pub warp_panel_identity : Option NodeInfo → String
unfolding has_prefix index_of take_text drop_text
warp_panel_identity none = "zicnode"
warp_panel_identity (some info) =
    let tag = trim_space info.tag in
    elim (bracketed tag) [ some host ↦ host | none ↦ if tag == "" then "zicnode" else tag ]

-- The first twelve of the 64 digits.
abbrev short : String → String
short digits = elim (take_text 12 digits) [ none ↦ digits | some t ↦ t ]

abbrev id_of : Option NodeInfo → ℤ
id_of none = pos 0
id_of (some info) = info.id

unfoldable pub warp_sidecar_path : System → Option NodeInfo → String
unfolding warp_panel_identity
warp_sidecar_path sys info =
    let own = trim_space sys.warp_dir in
    let dir = if own == "" then "/etc/zicnode/warp" else own in
    sys.join dir (
      short (sys.hex_sha256 (warp_panel_identity info))
      ++ "-zicnode-"
      ++ itoa (id_of info)
      ++ ".json")

abbrev pub loaded : Sidecar → WarpSettings → RuntimeConfig
loaded sidecar s = record {
  private_key = sidecar.private_key;
  public_key = sidecar.public_key;
  peer_public_key = first_non_empty (s.peer_public_key ∷ sidecar.peer_public_key ∷ []);
  endpoint =
      first_non_empty
        (non_default_warp_endpoint s.endpoint ∷ sidecar.endpoint ∷ warp_default_endpoint ∷ []);
  addresses = choose_addresses (clean_string_list sidecar.addresses) s.addresses;
  reserved = or_bytes s.reserved (ints_to_byte_slice sidecar.reserved);
  mtu = s.mtu;
  domain_strategy = s.domain_strategy;
  source = "sidecar";
}

abbrev pub accept : WarpSettings → Option (Option Sidecar) → Option RuntimeConfig
accept s (some (some sidecar)) =
    if sidecar.private_key == "" || sidecar.peer_public_key == ""
    then none
    else some (loaded sidecar s)
accept s _ = none

-- `none` where the file is missing, is not JSON or has no keys.
unfoldable pub load_warp_sidecar : System → NodeInfo → WarpSettings → Disk → Option RuntimeConfig
unfolding warp_sidecar_path
load_warp_sidecar sys info s disk = accept s (load (warp_sidecar_path sys (some info)) disk)

abbrev pub sidecar_of : System → NodeInfo → RuntimeConfig → Sidecar
sidecar_of sys info c = record {
  version = pos 1;
  node_id = info.id;
  node_tag = info.tag;
  private_key = c.private_key;
  public_key = c.public_key;
  peer_public_key = c.peer_public_key;
  endpoint = c.endpoint;
  addresses = c.addresses;
  reserved = byte_slice_to_ints c.reserved;
  created_at = sys.now;
  updated_at = sys.now;
}

-- The disk that is left, `none` where the sidecar cannot be written.
unfoldable pub save_warp_sidecar : System → NodeInfo → RuntimeConfig → Disk → Option Disk
unfolding warp_sidecar_path
save_warp_sidecar sys info c disk =
    let path = warp_sidecar_path sys (some info) in
    if sys.makes_dir path && sys.writes path
    then some (store path (some (sidecar_of sys info c)) disk)
    else none
