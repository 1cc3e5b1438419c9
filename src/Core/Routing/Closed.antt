-- ===== src/Core/Routing/Closed.antt =====
-- core/custom.go: the traffic of a node whose WARP must not fail open.
use zicnode.Prelude.{
  Bool, true, false, String, Option, none, some, List, [], ◌∷◌, ◌≡◌, ◌⊎◌, inl, inr, refl, sym,
  arith, if◌then◌else◌, ◌==◌, string_key, str_iff, IsIn, IsIn-append, IsIn-last, subst,
}
use zicnode.Panel.Config.{NodeInfo, CommonNode}
use zicnode.Core.Warp.{warp_fail_policy, warp_outbound_tag}
use zicnode.Core.Warp.Sidecar.{System, Disk}
use zicnode.Core.Warp.Resolve.{Service, Built, nothing, refused, built, build_warp_outbound}
use zicnode.Core.Routing.{
  Engine, Config, Rule, InterfaceAddress, add_rule, catch_all, append_catch_all_outbound_rule,
  has_outbound_with_tag,
}
use zicnode.Core.Routing.Sanitize.{Parsed}
use zicnode.Core.Warp.Built.{Tagged, build_warp_outbound-Tagged}
use zicnode.Core.Routing.Rules.{Keeps, choice_inv, add_nodes_inv}
use zicnode.Core.Routing.Build.{
  add_outbound, ensure_outbound, route_parsed, unless_there, add_warp_built, add_warp, warp_if,
  add_common, add_node, add_nodes, collect,
}

-- A rule that is there stays there.
module _ {H D : Type 0} (e : Engine H D) (sys : System) (service : Service) (rule : Rule) where
  abbrev pub There : Config H → Type 0
  There c = IsIn rule c.rules

  add_rule-There : (r : Rule) (c : Config H) → There c → There (add_rule r c)
  add_rule-There r c h = IsIn-append rule c.rules (r ∷ []) h

  add_outbound-There : (o : Option H) (c : Config H) → There c → There (add_outbound o c)
  add_outbound-There none c h = h
  add_outbound-There (some o) c h = h

  route_parsed-There :
      (r : Rule) (p : Parsed D) (c : Config H) → There c → There (route_parsed e r (some p) c)
  unfolding ensure_outbound
  route_parsed-There r p c h =
      let c' = add_rule (record r { outbound_tag = e.tag p.outbound }) c in
      let k = add_rule-There (record r { outbound_tag = e.tag p.outbound }) c h in
      choice_inv There (has_outbound_with_tag e.handler_tag c'.outbounds (e.tag p.outbound)) c'
        (add_outbound (e.build p.outbound) c') k (add_outbound-There (e.build p.outbound) c' k)

  unless_there-There :
      (o : H) (tag : String) (c : Config H) → There c → There (unless_there e o tag c)
  unless_there-There o tag c h =
      choice_inv There (has_outbound_with_tag e.handler_tag c.outbounds tag) c
        (add_outbound (some o) c) h h

  add_warp_built-There :
      (info : NodeInfo) (b : Built H) (c : Config H) → There c → There (add_warp_built e info b c)
  unfolding append_catch_all_outbound_rule
  add_warp_built-There info nothing c h = add_rule-There (catch_all info.tag "") c h
  add_warp_built-There info (refused tag err) c h =
      choice_inv There (warp_fail_policy (some info) == "block")
        (add_rule (catch_all info.tag "block") c) c
        (add_rule-There (catch_all info.tag "block") c h) h
  add_warp_built-There info (built o tag) c h =
      add_rule-There (catch_all info.tag tag) (unless_there e o tag c)
        (unless_there-There o tag c h)

  pub There-Keeps : Keeps e sys service There
  There-Keeps = record {
    dns = λ s c h. h;
    block = λ r c q h. add_rule-There r c h;
    custom = route_parsed-There;
    warp = λ info common disk c p q h. add_warp_built-There info _ c h;
  }

-- The catch-all rule of a node.
abbrev Caught : {H : Type 0} → NodeInfo → Config H → Type 0
Caught info c =
    (target : String) × ((target ≡ "block") ⊎ (target ≡ warp_outbound_tag (some info)))
    × IsIn (catch_all info.tag target) c.rules

module _ {H D : Type 0} (e : Engine H D) (sys : System) (service : Service) where
  Caught-add_nodes :
      (info : NodeInfo) (ns : List (Option NodeInfo)) (s : Config H × Disk)
      → Caught info s.0
      → Caught info (add_nodes e sys service ns s).0
  Caught-add_nodes info ns s h = (
    h.0,
    h.1,
    add_nodes_inv e sys service (λ c. IsIn (catch_all info.tag h.0) c.rules)
        (There-Keeps e sys service (catch_all info.tag h.0)) ns s h.2,
  )

  refused-Caught :
      (info : NodeInfo) (b : Bool) (c : Config H)
      → b ≡ true
      → Caught info (if b then append_catch_all_outbound_rule info.tag "block" c else c)
  unfolding append_catch_all_outbound_rule
  refused-Caught info true c h = ("block", inl refl, IsIn-last (catch_all info.tag "block") c.rules)
  refused-Caught info false c h = ground (arith, h)

  built-Caught :
      (info : NodeInfo) (b : Built H) (c : Config H)
      → Tagged e.build_warp (warp_outbound_tag (some info)) b
      → (warp_fail_policy (some info) == "block") ≡ true
      → Caught info (add_warp_built e info b c)
  unfolding append_catch_all_outbound_rule
  built-Caught info nothing c t h = elim t [ ]
  built-Caught info (refused tag err) c t h =
      refused-Caught info (warp_fail_policy (some info) == "block") c h
  built-Caught info (built o tag) c t h =
      (tag, inr t.3, IsIn-last (catch_all info.tag tag) (unless_there e o tag c).rules)

  warp_if-Caught :
      (info : NodeInfo) (common : CommonNode) (b : Bool) (c : Config H) (disk : Disk)
      → info.common ≡ some common
      → common.warp_settings.enable ≡ true
      → b ≡ true
      → (warp_fail_policy (some info) == "block") ≡ true
      → Caught info (warp_if e sys service info b (c, disk)).0
  unfolding add_warp
  warp_if-Caught info common true c disk p q b h =
      built-Caught info (build_warp_outbound e.build_warp sys service info disk).0 c
        (build_warp_outbound-Tagged e.build_warp sys service info disk common p q) h
  warp_if-Caught info common false c disk p q b h = ground (arith, b)

  add_node-Caught :
      (info : NodeInfo) (common : CommonNode) (s : Config H × Disk)
      → info.common ≡ some common
      → common.warp_settings.enable ≡ true
      → (warp_fail_policy (some info) == "block") ≡ true
      → Caught info (add_node e sys service (some info) s).0
  unfolding add_node
  add_node-Caught info common (c, disk) p q h =
      subst (λ o. Caught info (add_common e sys service info o (c, disk)).0) (sym p)
        (warp_if-Caught info common common.warp_settings.enable _ disk p q q h)

  add_nodes-Caught :
      (info : NodeInfo) (common : CommonNode) (ns : List (Option NodeInfo)) (s : Config H × Disk)
      → IsIn (some info) ns
      → info.common ≡ some common
      → common.warp_settings.enable ≡ true
      → (warp_fail_policy (some info) == "block") ≡ true
      → Caught info (add_nodes e sys service ns s).0
  unfolding add_nodes
  add_nodes-Caught info common [] s i p q h = elim i [ ]
  add_nodes-Caught info common (n ∷ ns) s (inl i) p q h =
      Caught-add_nodes info ns (add_node e sys service n s) (
        subst (λ n. Caught info (add_node e sys service n s).0) i
          (add_node-Caught info common s p q h))
  add_nodes-Caught info common (n ∷ ns) s (inr i) p q h =
      add_nodes-Caught info common ns (add_node e sys service n s) i p q h

-- A node with WARP whose fail policy is "block" has, whatever its own routes, the other nodes, the
-- answers of the service and the disk are, a rule that takes all the traffic of its inbound to the
-- WARP outbound or to "block": WARP that cannot be set up does not let its traffic out directly.
pub collect-closed :
    {H D : Type 0} (e : Engine H D) (sys : System) (service : Service)
    (addresses : Option (List InterfaceAddress)) (infos : List (Option NodeInfo)) (disk : Disk)
    (info : NodeInfo) (common : CommonNode)
    → IsIn (some info) infos
    → info.common ≡ some common
    → common.warp_settings.enable ≡ true
    → warp_fail_policy (some info) ≡ "block"
    → (target : String) × ((target ≡ "block") ⊎ (target ≡ warp_outbound_tag (some info)))
      × IsIn (catch_all info.tag target) (collect e sys service addresses infos disk).0.rules
unfolding collect
collect-closed e sys service addresses infos disk info common i p q h =
    add_nodes-Caught e sys service info common infos _ i p q
      ((str_iff (warp_fail_policy (some info)) "block").1 h)
