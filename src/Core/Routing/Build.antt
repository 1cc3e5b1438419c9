-- ===== src/Core/Routing/Build.antt =====
-- core/custom.go: `GetCustomConfig`, route by route and node by node. The disk keeps the sidecars of
-- WARP.
use Prim.Native.String.{◌++◌ as text_append}
use zicnode.Prelude.{
  Bool, true, false, ◌++◌, String, Option, none, some, List, [], ◌∷◌, string_key, ◌==◌,
  if◌then◌else◌,
}
use zicnode.Panel.Config.{NodeInfo, Route, CommonNode}
use zicnode.Core.Warp.{warp_fail_policy}
use zicnode.Core.Warp.Sidecar.{System, Disk}
use zicnode.Core.Warp.Resolve.{Service, Built, nothing, refused, built, build_warp_outbound}
use zicnode.Core.Routing.{
  Engine, Config, DnsConfig, Rule, Server, InterfaceAddress, zero_rule, add_rule, has_public_ipv6,
  has_outbound_with_tag, append_catch_all_outbound_rule, non_warp_inbound_tags, dns_rule_for,
}
use zicnode.Core.Routing.Sanitize.{Parsed, parse_custom_route_outbound}

-- strings.Join(texts, ",")
unfoldable pub join_commas : List String → String
join_commas [] = ""
join_commas (s ∷ []) = s
join_commas (s ∷ t ∷ ss) = text_append s (text_append "," (join_commas (t ∷ ss)))

abbrev pub server_of : Route → String → Server
server_of r address = record {
  address = address;
  domains = r.match_rules;
  skip_fallback = elim r.match_rules [ [] ↦ false | _ ↦ true ];
}

abbrev pub add_server : {H : Type 0} → Server → Config H → Config H
add_server s c = record c { dns = record c.dns { servers = c.dns.servers ++ s ∷ [] } }

abbrev pub add_dns : {H : Type 0} → Route → Option String → Config H → Config H
add_dns r none c = c
add_dns r (some address) c = add_server (server_of r address) c

abbrev pub add_outbound : {H : Type 0} → Option H → Config H → Config H
add_outbound none c = c
add_outbound (some h) c = record c { outbounds = c.outbounds ++ some h ∷ [] }

-- The outbound of a custom route, unless one with its tag is there. The rule stays if it is not built.
unfoldable pub ensure_outbound : {H D : Type 0} → Engine H D → D → Config H → Config H
unfolding has_outbound_with_tag
ensure_outbound e o c =
    if has_outbound_with_tag e.handler_tag c.outbounds (e.tag o)
    then c
    else add_outbound (e.build o) c

abbrev pub route_parsed :
    {H D : Type 0} → Engine H D → Rule → Option (Parsed D) → Config H → Config H
route_parsed e rule none c = c
route_parsed e rule (some p) c =
    ensure_outbound e p.outbound (add_rule (record rule { outbound_tag = e.tag p.outbound }) c)

-- The actions "route", "route_ip" and "default_out", which differ in what their rule matches.
unfoldable pub add_custom_route :
    {H D : Type 0} → Engine H D → Rule → Option String → Config H → Config H
unfolding ensure_outbound parse_custom_route_outbound
add_custom_route e rule none c = c
add_custom_route e rule (some value) c = route_parsed e rule (parse_custom_route_outbound e value) c

abbrev pub rule_of : NodeInfo → Rule
rule_of info = record zero_rule { inbound_tags = info.tag ∷ [] }

abbrev pub block_rule : NodeInfo → Rule
block_rule info = record (rule_of info) { outbound_tag = "block" }

unfoldable pub add_route :
    {H D : Type 0} → Engine H D → NodeInfo → Bool → Route → Config H → Config H
unfolding add_custom_route join_commas
add_route e info use_warp r c =
    if r.action == "dns"
    then add_dns r r.action_value c
    else if r.action == "block"
    then add_rule (record (block_rule info) { domain = r.match_rules }) c
    else if r.action == "block_ip"
    then add_rule (record (block_rule info) { ip = r.match_rules }) c
    else if r.action == "block_port"
    then add_rule (record (block_rule info) { port = join_commas r.match_rules }) c
    else if r.action == "protocol"
    then add_rule (record (block_rule info) { protocol = r.match_rules }) c
    else if r.action == "route"
    then add_custom_route e (record (rule_of info) { domain = r.match_rules }) r.action_value c
    else if r.action == "route_ip"
    then add_custom_route e (record (rule_of info) { ip = r.match_rules }) r.action_value c
    else if r.action == "default_out"
    then (if use_warp
        then c
        else add_custom_route e (record (rule_of info) { network = "tcp,udp" }) r.action_value c)
    else c

unfoldable pub add_routes :
    {H D : Type 0} → Engine H D → NodeInfo → Bool → List Route → Config H → Config H
unfolding add_route
add_routes e info use_warp [] c = c
add_routes e info use_warp (r ∷ rs) c =
    add_routes e info use_warp rs (add_route e info use_warp r c)

abbrev pub unless_there : {H D : Type 0} → Engine H D → H → String → Config H → Config H
unless_there e h tag c =
    if has_outbound_with_tag e.handler_tag c.outbounds tag then c else add_outbound (some h) c

-- The answer of buildWarpOutbound. A failed WARP blocks the node or leaves it to the default outbound.
abbrev pub add_warp_built : {H D : Type 0} → Engine H D → NodeInfo → Built H → Config H → Config H
add_warp_built e info (refused tag err) c =
    if warp_fail_policy (some info) == "block"
    then append_catch_all_outbound_rule info.tag "block" c
    else c
add_warp_built e info (built h tag) c =
    append_catch_all_outbound_rule info.tag tag (unless_there e h tag c)
add_warp_built e info nothing c = append_catch_all_outbound_rule info.tag "" c

-- The configuration and the disk.
unfoldable pub add_warp :
    {H D : Type 0} → Engine H D → System → Service → NodeInfo → Config H × Disk → Config H × Disk
unfolding has_outbound_with_tag append_catch_all_outbound_rule warp_fail_policy build_warp_outbound
add_warp e sys service info (c, disk) =
    let r = build_warp_outbound e.build_warp sys service info disk in
    (add_warp_built e info r.0 c, r.1)

abbrev pub warp_if :
    {H D : Type 0}
    → Engine H D
    → System
    → Service
    → NodeInfo
    → Bool
    → Config H × Disk
    → Config H × Disk
warp_if e sys service info true s = add_warp e sys service info s
warp_if e sys service info false s = s

abbrev pub add_common :
    {H D : Type 0}
    → Engine H D
    → System
    → Service
    → NodeInfo
    → Option CommonNode
    → Config H × Disk
    → Config H × Disk
add_common e sys service info none s = s
add_common e sys service info (some common) (c, disk) =
    warp_if e sys service info common.warp_settings.enable
      (add_routes e info common.warp_settings.enable common.routes c, disk)

unfoldable pub add_node :
    {H D : Type 0}
    → Engine H D
    → System
    → Service
    → Option NodeInfo
    → Config H × Disk
    → Config H × Disk
unfolding add_routes add_warp
add_node e sys service none s = s
add_node e sys service (some info) s = add_common e sys service info info.common s

unfoldable pub add_nodes :
    {H D : Type 0}
    → Engine H D
    → System
    → Service
    → List (Option NodeInfo)
    → Config H × Disk
    → Config H × Disk
unfolding add_node
add_nodes e sys service [] s = s
add_nodes e sys service (n ∷ ns) s = add_nodes e sys service ns (add_node e sys service n s)

abbrev pub first_config : {H D : Type 0} → Engine H D → Option (List InterfaceAddress) → Config H
first_config e addresses = record {
  dns = record {
    servers = record { address = "localhost"; domains = []; skip_fallback = false } ∷ [];
    query_strategy = if has_public_ipv6 addresses then "UseIPv4v6" else "UseIPv4";
  };
  outbounds = e.default_outbound ∷ e.block_outbound ∷ e.dns_outbound ∷ [];
  rules = [];
}

unfoldable pub collect :
    {H D : Type 0}
    → Engine H D
    → System
    → Service
    → Option (List InterfaceAddress)
    → List (Option NodeInfo)
    → Disk
    → Config H × Disk
unfolding has_public_ipv6 dns_rule_for non_warp_inbound_tags add_nodes
collect e sys service addresses infos disk =
    add_nodes e sys service infos
      (dns_rule_for (non_warp_inbound_tags infos) (first_config e addresses), disk)

abbrev config_built :
    {H N R : Type 0}
    → (DnsConfig → Option N)
    → (List Rule → Option R)
    → Config H
    → Option (N × List (Option H) × R)
config_built build_dns build_router c = elim (build_dns c.dns) [
  | none ↦ none
  | some dns ↦ elim (build_router c.rules) [
    | none ↦ none
    | some router ↦ some (dns, c.outbounds, router)
  ]
]

-- `none` is an error of the engine's builders of the DNS and of the router.
unfoldable pub get_custom_config :
    {H D N R : Type 0}
    → Engine H D
    → (DnsConfig → Option N)
    → (List Rule → Option R)
    → System
    → Service
    → Option (List InterfaceAddress)
    → List (Option NodeInfo)
    → Disk
    → Option (N × List (Option H) × R) × Disk
unfolding collect
get_custom_config e build_dns build_router sys service addresses infos disk =
    let r = collect e sys service addresses infos disk in
    (config_built build_dns build_router r.0, r.1)
