-- ===== src/Core/Routing.antt =====
-- core/custom.go: the DNS servers, the outbounds and the routing rules that the nodes of the panel
-- ask for. A rule is the record of the fields that its JSON has; an empty field is one it has not.
pub mod Sanitize
pub mod Build
pub mod Rules
pub mod Closed
pub mod Targets
pub mod Routed
pub mod Dangling
mod Tests
use zicnode.Prelude.{
  ◌++◌, Bool, true, false, not, ◌&&◌, ◌||◌, String, Option, none, some, List, [], ◌∷◌, trim_space,
  string_key, ◌==◌, if◌then◌else◌, Json,
}
use zicnode.Panel.Config.{NodeInfo, Route, CommonNode}
use zicnode.Core.Warp.{warp_enabled}
use zicnode.Core.Warp.Resolve.{Outbound}

-- An address of an interface of the machine.
pub record InterfaceAddress : Type 0 where
  pub is_ip_net : Bool
  pub is_v4 : Bool
  pub is_loopback : Bool
  pub is_link_local : Bool
  pub is_private : Bool

abbrev any_public_ipv6 : List InterfaceAddress → Bool
any_public_ipv6 [] = false
any_public_ipv6 (a ∷ as') =
    (a.is_ip_net && not a.is_v4 && not a.is_loopback && not a.is_link_local && not a.is_private)
    || any_public_ipv6 as'

-- `none` where the interfaces cannot be listed
unfoldable pub has_public_ipv6 : Option (List InterfaceAddress) → Bool
has_public_ipv6 none = false
has_public_ipv6 (some addresses) = any_public_ipv6 addresses

pub record Rule : Type 0 where
  pub inbound_tags : List String
  pub domain : List String
  pub ip : List String
  pub port : String
  pub network : String
  pub protocol : List String
  pub outbound_tag : String

pub record Server : Type 0 where
  pub address : String
  pub domains : List String
  pub skip_fallback : Bool

pub record DnsConfig : Type 0 where
  pub servers : List Server
  pub query_strategy : String

-- The engine's part: the JSON decoder, the decoder of an outbound with its tag, and the builders. A
-- built outbound is a handler `H`, a described one a `D`. The first three outbounds may be nil.
pub record Engine (H D : Type 0) : Type 0 where
  pub parse : String → Option Json
  pub outbound_of : Json → Option D
  pub tag : D → String
  pub build : D → Option H
  pub build_warp : Outbound → Option H
  pub handler_tag : H → String
  pub default_outbound : Option H
  pub block_outbound : Option H
  pub dns_outbound : Option H

pub record Config (H : Type 0) : Type 0 where
  pub dns : DnsConfig
  pub outbounds : List (Option H)
  pub rules : List Rule

abbrev pub handler_has : {H : Type 0} → (H → String) → Option H → String → Bool
handler_has handler_tag none tag = false
handler_has handler_tag (some h) tag = handler_tag h == tag

unfoldable pub has_outbound_with_tag : {H : Type 0} → (H → String) → List (Option H) → String → Bool
has_outbound_with_tag handler_tag [] tag = false
has_outbound_with_tag handler_tag (o ∷ os) tag =
    handler_has handler_tag o tag || has_outbound_with_tag handler_tag os tag

abbrev pub zero_rule : Rule
zero_rule = record {
  inbound_tags = [];
  domain = [];
  ip = [];
  port = "";
  network = "";
  protocol = [];
  outbound_tag = "";
}

abbrev pub add_rule : {H : Type 0} → Rule → Config H → Config H
add_rule rule c = record c { rules = c.rules ++ rule ∷ [] }

-- All the traffic of an inbound.
abbrev pub catch_all : String → String → Rule
catch_all inbound_tag outbound_tag = record zero_rule {
  inbound_tags = inbound_tag ∷ [];
  network = "tcp,udp";
  outbound_tag = outbound_tag;
}

unfoldable pub append_catch_all_outbound_rule : {H : Type 0} → String → String → Config H → Config H
append_catch_all_outbound_rule inbound_tag outbound_tag =
    add_rule (catch_all inbound_tag outbound_tag)

abbrev pub dns_rule : List String → Rule
dns_rule tags = record zero_rule {
  inbound_tags = tags;
  port = "53";
  network = "udp";
  outbound_tag = "dns_out";
}

unfoldable pub append_default_dns_rule : {H : Type 0} → List String → Config H → Config H
append_default_dns_rule tags = add_rule (dns_rule tags)

-- The tags of the nodes without WARP, and whether one has it.
pub record Split : Type 0 where
  pub non_warp_tags : List String
  pub has_warp : Bool

abbrev tag_unless_empty : NodeInfo → Split → Split
tag_unless_empty info r =
    if trim_space info.tag == "" then r else record r { non_warp_tags = info.tag ∷ r.non_warp_tags }

abbrev split_one : NodeInfo → Option CommonNode → Split → Split
split_one info none r = r
split_one info (some c) r =
    if c.warp_settings.enable then record r { has_warp = true } else tag_unless_empty info r

unfoldable pub non_warp_inbound_tags : List (Option NodeInfo) → Split
non_warp_inbound_tags [] = record { non_warp_tags = []; has_warp = false }
non_warp_inbound_tags (none ∷ infos) = non_warp_inbound_tags infos
non_warp_inbound_tags (some info ∷ infos) = split_one info info.common (non_warp_inbound_tags infos)

abbrev pub dns_rule_if_any : {H : Type 0} → List String → Config H → Config H
dns_rule_if_any [] c = c
dns_rule_if_any (t ∷ ts) c = append_default_dns_rule (t ∷ ts) c

unfoldable pub dns_rule_for : {H : Type 0} → Split → Config H → Config H
unfolding append_default_dns_rule
dns_rule_for s c =
    if s.has_warp then dns_rule_if_any s.non_warp_tags c else append_default_dns_rule [] c
