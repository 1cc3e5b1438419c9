-- ===== src/Core/Routing/Rules.antt =====
-- core/custom.go: what every step of `GetCustomConfig` keeps, the whole keeps.
use zicnode.Prelude.{
  Bool, true, false, String, Option, none, some, List, [], ◌∷◌, ◌≡◌, refl, Option-cases, inl, inr,
  if◌then◌else◌, ◌==◌, string_key,
}
use zicnode.Panel.Config.{NodeInfo, Route, CommonNode}
use zicnode.Core.Warp.Sidecar.{System, Disk}
use zicnode.Core.Warp.Resolve.{Service, build_warp_outbound}
use zicnode.Core.Routing.{Engine, Config, Rule, Server, add_rule}
use zicnode.Core.Routing.Sanitize.{Parsed, parse_custom_route_outbound}
use zicnode.Core.Routing.Build.{
  rule_of, join_commas, block_rule, add_server, server_of, add_dns, route_parsed, add_custom_route,
  add_route, add_routes, add_warp_built, add_warp, warp_if, add_common, add_node, add_nodes,
}

pub choice_inv :
    {H : Type 0} (P : Config H → Type 0) (b : Bool) (c c' : Config H)
    → P c
    → P c'
    → P (if b then c else c')
choice_inv P true c c' h k = h
choice_inv P false c c' h k = k

-- The steps: a DNS server, a rule that blocks, a custom route, and the end of a node with WARP.
pub record Keeps {H D : Type 0} (e : Engine H D) (sys : System) (service : Service)
    (P : Config H → Type 0) : Type 0 where
  pub dns : (s : Server) (c : Config H) → P c → P (add_server s c)
  pub block : (r : Rule) (c : Config H) → r.outbound_tag ≡ "block" → P c → P (add_rule r c)
  pub custom : (r : Rule) (p : Parsed D) (c : Config H) → P c → P (route_parsed e r (some p) c)
  pub warp :
      (info : NodeInfo) (common : CommonNode) (disk : Disk) (c : Config H)
      → info.common ≡ some common
      → common.warp_settings.enable ≡ true
      → P c
      → P (add_warp_built e info (build_warp_outbound e.build_warp sys service info disk).0 c)

module _ {H D : Type 0} (e : Engine H D) (sys : System) (service : Service) (P : Config H → Type 0)
    (keeps : Keeps e sys service P) where
  add_custom_route_inv :
      (r : Rule) (value : Option String) (c : Config H) → P c → P (add_custom_route e r value c)
  unfolding add_custom_route
  add_custom_route_inv r none c h = h
  add_custom_route_inv r (some value) c h =
      elim (Option-cases (parse_custom_route_outbound e value)) [
        | inl p ↦ rw p h
        | inr (p, q) ↦ rw q (keeps.custom r p c h)
      ]

  add_dns_inv : (r : Route) (value : Option String) (c : Config H) → P c → P (add_dns r value c)
  add_dns_inv r none c h = h
  add_dns_inv r (some address) c h = keeps.dns (server_of r address) c h

  pub add_route_inv :
      (info : NodeInfo) (b : Bool) (r : Route) (c : Config H) → P c → P (add_route e info b r c)
  unfolding add_route
  add_route_inv info b r c h =
      let blocked : (r : Rule) → r.outbound_tag ≡ "block" → P (add_rule r c) =
        λ r q. keeps.block r c q h in
      let routed : (r' : Rule) → P (add_custom_route e r' r.action_value c) =
        λ r'. add_custom_route_inv r' r.action_value c h in
      choice_inv P (r.action == "dns") _ _ (add_dns_inv r r.action_value c h) (
        choice_inv P (r.action == "block") _ _
          (blocked (record (block_rule info) { domain = r.match_rules }) refl)
          (choice_inv P (r.action == "block_ip") _ _
            (blocked (record (block_rule info) { ip = r.match_rules }) refl)
            (choice_inv P (r.action == "block_port") _ _
              (blocked (record (block_rule info) { port = join_commas r.match_rules }) refl)
              (choice_inv P (r.action == "protocol") _ _
                (blocked (record (block_rule info) { protocol = r.match_rules }) refl)
                (choice_inv P (r.action == "route") _ _
                  (routed (record (rule_of info) { domain = r.match_rules }))
                  (choice_inv P (r.action == "route_ip") _ _
                    (routed (record (rule_of info) { ip = r.match_rules }))
                    (choice_inv P (r.action == "default_out") _ _
                      (choice_inv P b _ _ h
                        (routed (record (rule_of info) { network = "tcp,udp" })))
                      h)))))))

  pub add_routes_inv :
      (info : NodeInfo) (b : Bool) (rs : List Route) (c : Config H)
      → P c
      → P (add_routes e info b rs c)
  unfolding add_routes
  add_routes_inv info b [] c h = h
  add_routes_inv info b (r ∷ rs) c h =
      add_routes_inv info b rs (add_route e info b r c) (add_route_inv info b r c h)

  pub warp_if_inv :
      (info : NodeInfo) (common : CommonNode) (b : Bool) (c : Config H) (disk : Disk)
      → info.common ≡ some common
      → common.warp_settings.enable ≡ b
      → P c
      → P (warp_if e sys service info b (c, disk)).0
  unfolding add_warp
  warp_if_inv info common true c disk p q h = keeps.warp info common disk c p q h
  warp_if_inv info common false c disk p q h = h

  add_common_inv :
      (info : NodeInfo) (o : Option CommonNode) (s : Config H × Disk)
      → info.common ≡ o
      → P s.0
      → P (add_common e sys service info o s).0
  add_common_inv info none s p h = h
  add_common_inv info (some common) (c, disk) p h =
      warp_if_inv info common common.warp_settings.enable _ disk p refl
        (add_routes_inv info common.warp_settings.enable common.routes c h)

  pub add_node_inv :
      (n : Option NodeInfo) (s : Config H × Disk) → P s.0 → P (add_node e sys service n s).0
  unfolding add_node
  add_node_inv none s h = h
  add_node_inv (some info) s h = add_common_inv info info.common s refl h

  pub add_nodes_inv :
      (ns : List (Option NodeInfo)) (s : Config H × Disk)
      → P s.0
      → P (add_nodes e sys service ns s).0
  unfolding add_nodes
  add_nodes_inv [] s h = h
  add_nodes_inv (n ∷ ns) s h = add_nodes_inv ns (add_node e sys service n s) (add_node_inv n s h)
