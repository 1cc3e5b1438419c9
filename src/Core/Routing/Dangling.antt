-- ===== src/Core/Routing/Dangling.antt =====
-- core/custom.go: the configuration where the outbound of a custom route cannot be built.
use zicnode.Prelude.{
  false, String, Option, none, some, List, [], ◌∷◌, ◌≡◌, refl, arith, ◌==◌, string_key, IsIn,
}
use zicnode.Panel.Config.{NodeInfo, Route, CommonNode}
use zicnode.Core.Warp.{warp_fail_policy}
use zicnode.Core.Warp.Sidecar.{System, Disk}
use zicnode.Core.Warp.Resolve.{
  Service, Built, nothing, refused, built, build_warp_outbound, Outbound,
}
use zicnode.Core.Warp.Built.{Tagged, build_warp_outbound-Tagged}
use zicnode.Core.Routing.{
  Engine, Config, Rule, InterfaceAddress, add_rule, catch_all, append_catch_all_outbound_rule,
  has_outbound_with_tag, dns_rule_for, append_default_dns_rule, Split, non_warp_inbound_tags,
  dns_rule_if_any,
}
use zicnode.Core.Routing.Sanitize.{Parsed, parse_custom_route_outbound}
use zicnode.Core.Routing.Rules.{Keeps, choice_inv, add_nodes_inv}
use zicnode.Core.Routing.Routed.{rule_for, add_nodes-There}
use zicnode.Core.Routing.Targets.{has-append}
use zicnode.Core.Routing.Build.{
  add_outbound, ensure_outbound, route_parsed, add_warp_built, first_config, collect,
}

-- The engine makes nothing with the tag: none of its own outbounds has it, and it builds no described
-- outbound and no WARP outbound to one that has it.
pub record NeverBuilds {H D : Type 0} (e : Engine H D) (t : String) : Type 0 where
  pub own :
      has_outbound_with_tag e.handler_tag
        (e.default_outbound ∷ e.block_outbound ∷ e.dns_outbound ∷ [])
        t
      ≡ false
  pub build : (d : D) (h : H) → e.build d ≡ some h → (e.handler_tag h == t) ≡ false
  pub build_warp : (o : Outbound) (h : H) → e.build_warp o ≡ some h → (e.handler_tag h == t) ≡ false

module _ {H D : Type 0} (e : Engine H D) (t : String) (never : NeverBuilds e t) (sys : System)
    (service : Service) where
  abbrev Absent : Config H → Type 0
  Absent c = has_outbound_with_tag e.handler_tag c.outbounds t ≡ false

  add_outbound-Absent :
      (o : Option H) (c : Config H)
      → ((h : H) → o ≡ some h → (e.handler_tag h == t) ≡ false)
      → Absent c
      → Absent (add_outbound o c)
  add_outbound-Absent none c k a = a
  add_outbound-Absent (some h) c k a =
      ground (arith, has-append e.handler_tag c.outbounds (some h) t, k h refl, a)

  custom-Absent :
      (r : Rule) (p : Parsed D) (c : Config H) → Absent c → Absent (route_parsed e r (some p) c)
  unfolding ensure_outbound
  custom-Absent r p c a =
      let c' = add_rule (record r { outbound_tag = e.tag p.outbound }) c in
      choice_inv Absent (has_outbound_with_tag e.handler_tag c'.outbounds (e.tag p.outbound)) c'
        (add_outbound (e.build p.outbound) c') a
        (add_outbound-Absent (e.build p.outbound) c' (never.build p.outbound) a)

  warp-Absent :
      (info : NodeInfo) (b : Built H) (c : Config H)
      → ((h : H) (tag : String) → b ≡ built h tag → (e.handler_tag h == t) ≡ false)
      → Absent c
      → Absent (add_warp_built e info b c)
  unfolding append_catch_all_outbound_rule
  warp-Absent info nothing c k a = a
  warp-Absent info (refused tag err) c k a =
      choice_inv Absent (warp_fail_policy (some info) == "block")
        (add_rule (catch_all info.tag "block") c) c a a
  warp-Absent info (built h tag) c k a =
      choice_inv Absent (has_outbound_with_tag e.handler_tag c.outbounds tag) c
        (add_outbound (some h) c) a
        (add_outbound-Absent (some h) c (λ h' p. ground (arith, k h tag refl, p)) a)

  built-untagged :
      (warp_tag : String) (b : Built H)
      → Tagged e.build_warp warp_tag b
      → (h : H) (tag : String) → b ≡ built h tag
      → (e.handler_tag h == t) ≡ false
  built-untagged warp_tag nothing g h tag p = ground (arith, p)
  built-untagged warp_tag (refused tag' err) g h tag p = ground (arith, p)
  built-untagged warp_tag (built h' tag') g h tag p = ground (arith, p, never.build_warp g.0 h' g.1)

  Absent-Keeps : Keeps e sys service Absent
  Absent-Keeps = record {
    dns = λ s c a. a;
    block = λ r c q a. a;
    custom = custom-Absent;
    warp = λ info common disk c p q a.
        warp-Absent info (build_warp_outbound e.build_warp sys service info disk).0 c
          (built-untagged _ _
            (build_warp_outbound-Tagged e.build_warp sys service info disk common p q))
          a;
  }

  dns_rule_for-Absent : (split : Split) (c : Config H) → Absent c → Absent (dns_rule_for split c)
  unfolding dns_rule_for append_default_dns_rule
  dns_rule_for-Absent split c a =
      choice_inv Absent split.has_warp (dns_rule_if_any split.non_warp_tags c)
        (append_default_dns_rule [] c) (if_any split.non_warp_tags c a) a
    where
      if_any : (tags : List String) (c : Config H) → Absent c → Absent (dns_rule_if_any tags c)
      if_any [] c a = a
      if_any (x ∷ xs) c a = a

  collect-Absent :
      (addresses : Option (List InterfaceAddress)) (infos : List (Option NodeInfo)) (disk : Disk)
      → Absent (collect e sys service addresses infos disk).0
  unfolding collect
  collect-Absent addresses infos disk =
      add_nodes_inv e sys service Absent Absent-Keeps infos _
        (dns_rule_for-Absent (non_warp_inbound_tags infos) (first_config e addresses) never.own)

-- A node has a route of the action "route" to an outbound that can be read, and the engine builds
-- nothing with its tag. Whatever the other routes, the other nodes, the service and the disk are, the
-- configuration that is put together has the route's rule and no outbound with the tag that it names.
pub collect-dangling :
    {H D : Type 0} (e : Engine H D) (sys : System) (service : Service)
    (addresses : Option (List InterfaceAddress)) (infos : List (Option NodeInfo)) (disk : Disk)
    (info : NodeInfo) (common : CommonNode) (r : Route) (value : String) (p : Parsed D)
    → NeverBuilds e (e.tag p.outbound)
    → IsIn (some info) infos
    → info.common ≡ some common
    → IsIn r common.routes
    → r.action ≡ "route"
    → r.action_value ≡ some value
    → parse_custom_route_outbound e value ≡ some p
    → let c = (collect e sys service addresses infos disk).0 in
      IsIn (rule_for info r (e.tag p.outbound)) c.rules
      × (has_outbound_with_tag e.handler_tag c.outbounds (e.tag p.outbound) ≡ false)
unfolding collect
collect-dangling e sys service addresses infos disk info common r value p never j k i a q h = (
  add_nodes-There e sys service info r value p common infos _ j k i a q h,
  collect-Absent e (e.tag p.outbound) never sys service addresses infos disk,
)
