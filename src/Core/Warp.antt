-- ===== src/Core/Warp.antt =====
-- core/warp.go: the settings of the outbound to WARP, and the runtime that is made of them.
pub mod Normal
pub mod Base64
pub mod Response
pub mod Sidecar
pub mod Bytes
pub mod Resolve
pub mod Choices
pub mod Registered
pub mod RoundTrip
pub mod Usable
pub mod Built
mod Tests
use zicnode.Prelude.{
  ℕ, Bool, true, false, not, ◌&&◌, ◌||◌, String, ◌<◌, Option, none, some, List, [], ◌∷◌, ℤ, pos,
  leb_ℤ, ltb, to_lower, trim_space, equal_fold, string_key, ◌==◌, if◌then◌else◌,
}
use Prim.Native.String.{◌++◌}
use zicnode.Panel.Config.{WarpSettings, CommonNode, NodeInfo}

abbrev pub warp_default_endpoint : String
warp_default_endpoint = "engage.cloudflareclient.com:2408"

abbrev pub warp_default_mtu : ℤ
warp_default_mtu = pos 1280

abbrev pub warp_default_addresses : List String
warp_default_addresses = "172.16.0.2/32" ∷ "2606:4700:110:8765::2/128" ∷ []

pub record RuntimeConfig : Type 0 where
  pub private_key : String
  pub public_key : String
  pub peer_public_key : String
  pub endpoint : String
  pub addresses : List String
  pub reserved : List ℕ
  pub mtu : ℤ
  pub domain_strategy : String
  pub source : String

-- The settings of a node; a node or a description that is missing has none.
abbrev warp_of : Option NodeInfo → Option WarpSettings
warp_of none = none
warp_of (some info) = elim info.common [ none ↦ none | some c ↦ some c.warp_settings ]

unfoldable pub warp_enabled : Option NodeInfo → Bool
warp_enabled info = elim (warp_of info) [ none ↦ false | some s ↦ s.enable ]

unfoldable pub warp_fail_policy : Option NodeInfo → String
warp_fail_policy info = elim (warp_of info) [
  | none ↦ "block"
  | some s ↦ if equal_fold s.fail_policy "block" then "block" else "direct"
]

unfoldable pub warp_outbound_tag : Option NodeInfo → String
warp_outbound_tag none = "warp-zicnode"
warp_outbound_tag (some info) =
    if trim_space info.tag == "" then "warp-zicnode" else "warp-" ++ info.tag

unfoldable pub valid_warp_domain_strategy : String → Bool
valid_warp_domain_strategy value =
    let v = to_lower (trim_space value) in
    v == "forceip"
    || v == "forceipv4"
    || v == "forceipv6"
    || v == "forceipv4v6"
    || v == "forceipv6v4"

-- A text in front of a list, unless it is empty.
abbrev pub unless_empty : String → List String → List String
unless_empty value rest = if value == "" then rest else value ∷ rest

unfoldable pub clean_string_list : List String → List String
clean_string_list [] = []
clean_string_list (value ∷ values) = unless_empty (trim_space value) (clean_string_list values)

unfoldable pub first_non_empty : List String → String
first_non_empty [] = ""
first_non_empty (value ∷ values) =
    let rest = first_non_empty values in if trim_space value == "" then rest else trim_space value

abbrev pub or_text : String → String → String
or_text value default = if value == "" then default else value

abbrev pub or_list : List String → List String → List String
or_list [] default = default
or_list (x ∷ xs) default = x ∷ xs

-- The one word that counts, or the other.
abbrev pub word : String → String → String → String
word value one other = if to_lower (trim_space value) == one then one else other

unfoldable pub normalize_warp_settings : WarpSettings → WarpSettings
unfolding clean_string_list valid_warp_domain_strategy
normalize_warp_settings s = record s {
  mode = word s.mode "manual" "auto";
  fail_policy = word s.fail_policy "block" "direct";
  mtu = if leb_ℤ s.mtu (pos 0) then warp_default_mtu else s.mtu;
  domain_strategy =
      if valid_warp_domain_strategy s.domain_strategy then s.domain_strategy else "ForceIPv4v6";
  private_key = trim_space s.private_key;
  peer_public_key = trim_space s.peer_public_key;
  endpoint = or_text (trim_space s.endpoint) warp_default_endpoint;
  addresses = or_list (clean_string_list s.addresses) warp_default_addresses;
}

unfoldable pub has_manual_warp_identity : WarpSettings → Bool
has_manual_warp_identity s =
    not (trim_space s.private_key == "") && not (trim_space s.peer_public_key == "")

unfoldable pub runtime_from_warp_settings : WarpSettings → String → RuntimeConfig
runtime_from_warp_settings s source = record {
  private_key = s.private_key;
  public_key = "";
  peer_public_key = s.peer_public_key;
  endpoint = s.endpoint;
  addresses = s.addresses;
  reserved = s.reserved;
  mtu = s.mtu;
  domain_strategy = s.domain_strategy;
  source = source;
}

unfoldable pub non_default_warp_endpoint : String → String
non_default_warp_endpoint endpoint =
    let e = trim_space endpoint in if e == "" || equal_fold e warp_default_endpoint then "" else e

abbrev same_texts : List String → List String → Bool
same_texts [] [] = true
same_texts (x ∷ xs) (y ∷ ys) = x == y && same_texts xs ys
same_texts _ _ = false

unfoldable pub is_default_warp_addresses : List String → Bool
unfolding clean_string_list
is_default_warp_addresses addresses =
    same_texts (clean_string_list addresses) warp_default_addresses

-- int(b) for each byte
abbrev pub byte_slice_to_ints : List ℕ → List ℤ
byte_slice_to_ints [] = []
byte_slice_to_ints (b ∷ bs) = pos b ∷ byte_slice_to_ints bs

-- The integers that are bytes.
abbrev pub ints_to_byte_slice : List ℤ → List ℕ
ints_to_byte_slice [] = []
ints_to_byte_slice (pos n ∷ ns) =
    if ltb n 256 then n ∷ ints_to_byte_slice ns else ints_to_byte_slice ns
ints_to_byte_slice (_ ∷ ns) = ints_to_byte_slice ns

abbrev pub AreBytes : List ℕ → Type 0
AreBytes [] = Unit
AreBytes (b ∷ bs) = (b < 256) × AreBytes bs
