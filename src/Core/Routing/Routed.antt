-- ===== src/Core/Routing/Routed.antt =====
-- core/custom.go: the rule of a custom route is in the configuration.
use zicnode.Prelude.{
  Bool, true, false, String, Option, none, some, List, [], ◌∷◌, ◌≡◌, inl, inr, refl, sym, ap,
  if◌then◌else◌, ◌==◌, string_key, subst, IsIn, IsIn-last,
}
use zicnode.Panel.Config.{NodeInfo, Route, CommonNode}
use zicnode.Core.Warp.Sidecar.{System, Disk}
use zicnode.Core.Warp.Resolve.{Service}
use zicnode.Core.Routing.{Engine, Config, Rule, add_rule, has_outbound_with_tag}
use zicnode.Core.Routing.Sanitize.{Parsed, parse_custom_route_outbound}
use zicnode.Core.Routing.Rules.{choice_inv, add_routes_inv, warp_if_inv, add_nodes_inv}
use zicnode.Core.Routing.Closed.{There-Keeps}
use zicnode.Core.Routing.Build.{
  rule_of, add_outbound, ensure_outbound, route_parsed, add_custom_route, add_route, add_routes,
  add_common, add_node, add_nodes,
}

-- The rule of the route.
abbrev pub rule_for : NodeInfo → Route → String → Rule
rule_for info r t = record (rule_of info) { domain = r.match_rules; outbound_tag = t }

else_inv :
    {H : Type 0} (P : Config H → Type 0) (b : Bool) (c c' : Config H)
    → b ≡ false
    → P c'
    → P (if b then c else c')
else_inv P b c c' e h = subst (λ b. P (if b then c else c')) (sym e) h

then_inv :
    {H : Type 0} (P : Config H → Type 0) (b : Bool) (c c' : Config H)
    → b ≡ true
    → P c
    → P (if b then c else c')
then_inv P b c c' e h = subst (λ b. P (if b then c else c')) (sym e) h

module _ {H D : Type 0} (e : Engine H D) (sys : System) (service : Service) (info : NodeInfo)
    (r : Route) (value : String) (p : Parsed D) where
  abbrev There : Config H → Type 0
  There c = IsIn (rule_for info r (e.tag p.outbound)) c.rules

  ensured-There :
      (rule : Rule) (c : Config H)
      → IsIn
          (record rule { outbound_tag = e.tag p.outbound })
          (route_parsed e rule (some p) c).rules
  unfolding ensure_outbound
  ensured-There rule c =
      let q = record rule { outbound_tag = e.tag p.outbound } in
      let c' = add_rule q c in
      choice_inv (λ (c : Config H). IsIn q c.rules)
        (has_outbound_with_tag e.handler_tag c'.outbounds (e.tag p.outbound)) c'
        (add_outbound (e.build p.outbound) c') (IsIn-last q c.rules)
        (added (e.build p.outbound) q c' (IsIn-last q c.rules))
    where
      added :
          (o : Option H) (q : Rule) (c' : Config H)
          → IsIn q c'.rules
          → IsIn q (add_outbound o c').rules
      added none q c' h = h
      added (some h) q c' k = k

  custom-There :
      (rule : Rule) (o : Option String) (c : Config H)
      → o ≡ some value
      → parse_custom_route_outbound e value ≡ some p
      → IsIn (record rule { outbound_tag = e.tag p.outbound }) (add_custom_route e rule o c).rules
  unfolding add_custom_route
  custom-There rule o c q h =
      subst
        (λ o.
          IsIn (record rule { outbound_tag = e.tag p.outbound })
            (add_custom_route e rule o c).rules)
        (sym q) (rw h (ensured-There rule c))

  add_route-There :
      (b : Bool) (c : Config H)
      → r.action ≡ "route"
      → r.action_value ≡ some value
      → parse_custom_route_outbound e value ≡ some p
      → There (add_route e info b r c)
  unfolding add_route
  add_route-There b c a q h = else_inv There (r.action == "dns") _ _ (ap (λ x. x == "dns") a) (
      else_inv There (r.action == "block") _ _ (ap (λ x. x == "block") a) (
        else_inv There (r.action == "block_ip") _ _ (ap (λ x. x == "block_ip") a) (
          else_inv There (r.action == "block_port") _ _ (ap (λ x. x == "block_port") a) (
            else_inv There (r.action == "protocol") _ _ (ap (λ x. x == "protocol") a) (
              then_inv There (r.action == "route") _ _ (ap (λ x. x == "route") a) (
                custom-There (record (rule_of info) { domain = r.match_rules }) r.action_value c q
                  h))))))

  add_routes-There :
      (b : Bool) (rs : List Route) (c : Config H)
      → IsIn r rs
      → r.action ≡ "route"
      → r.action_value ≡ some value
      → parse_custom_route_outbound e value ≡ some p
      → There (add_routes e info b rs c)
  unfolding add_routes
  add_routes-There b [] c i a q h = elim i [ ]
  add_routes-There b (s ∷ rs) c (inl i) a q h =
      add_routes_inv e sys service There
        (There-Keeps e sys service (rule_for info r (e.tag p.outbound))) info b rs
        (add_route e info b s c)
        (subst (λ s. There (add_route e info b s c)) i (add_route-There b c a q h))
  add_routes-There b (s ∷ rs) c (inr i) a q h =
      add_routes-There b rs (add_route e info b s c) i a q h

  add_node-There :
      (common : CommonNode) (s : Config H × Disk)
      → info.common ≡ some common
      → IsIn r common.routes
      → r.action ≡ "route"
      → r.action_value ≡ some value
      → parse_custom_route_outbound e value ≡ some p
      → There (add_node e sys service (some info) s).0
  unfolding add_node
  add_node-There common (c, disk) k i a q h =
      subst (λ o. There (add_common e sys service info o (c, disk)).0) (sym k)
        (warp_if_inv e sys service There
          (There-Keeps e sys service (rule_for info r (e.tag p.outbound))) info common
          common.warp_settings.enable _ disk k refl
          (add_routes-There common.warp_settings.enable common.routes c i a q h))

  pub add_nodes-There :
      (common : CommonNode) (ns : List (Option NodeInfo)) (s : Config H × Disk)
      → IsIn (some info) ns
      → info.common ≡ some common
      → IsIn r common.routes
      → r.action ≡ "route"
      → r.action_value ≡ some value
      → parse_custom_route_outbound e value ≡ some p
      → There (add_nodes e sys service ns s).0
  unfolding add_nodes
  add_nodes-There common [] s j k i a q h = elim j [ ]
  add_nodes-There common (n ∷ ns) s (inl j) k i a q h =
      add_nodes_inv e sys service There
        (There-Keeps e sys service (rule_for info r (e.tag p.outbound))) ns
        (add_node e sys service n s)
        (subst (λ n. There (add_node e sys service n s).0) j (add_node-There common s k i a q h))
  add_nodes-There common (n ∷ ns) s (inr j) k i a q h =
      add_nodes-There common ns (add_node e sys service n s) j k i a q h
