-- ===== src/Core/Routing/Targets.antt =====
-- core/custom.go: the outbounds that the rules name.
use zicnode.Prelude.{
  Bool, true, false, String, Option, some, List, [], ◌∷◌, ◌++◌, ◌||◌, ◌≡◌, refl, sym, ◌∙◌, arith,
  if◌then◌else◌, ◌==◌, string_key, str_iff, subst,
}
use zicnode.Panel.Config.{NodeInfo}
use zicnode.Core.Warp.{warp_fail_policy, warp_outbound_tag}
use zicnode.Core.Warp.Sidecar.{System, Disk}
use zicnode.Core.Warp.Resolve.{
  Service, Built, nothing, refused, built, build_warp_outbound, Outbound,
}
use zicnode.Core.Warp.Built.{Tagged, build_warp_outbound-Tagged}
use zicnode.Core.Routing.{
  Engine, Config, Rule, InterfaceAddress, add_rule, catch_all, append_catch_all_outbound_rule,
  has_outbound_with_tag, handler_has, dns_rule, dns_rule_for, append_default_dns_rule, Split,
  non_warp_inbound_tags, dns_rule_if_any,
}
use zicnode.Core.Routing.Sanitize.{Parsed}
use zicnode.Core.Routing.Rules.{Keeps, choice_inv, add_nodes_inv}
use zicnode.Core.Routing.Build.{
  add_outbound, ensure_outbound, route_parsed, add_warp_built, first_config, collect,
}

-- Every rule names an outbound that is there.
abbrev pub Exist : {H : Type 0} → (H → String) → List (Option H) → List Rule → Type 0
Exist tag os [] = Unit
Exist tag os (r ∷ rs) = (has_outbound_with_tag tag os r.outbound_tag ≡ true) × Exist tag os rs

module _ {H : Type 0} (tag : H → String) where
  pub has-append :
      (os : List (Option H)) (o : Option H) (t : String)
      → has_outbound_with_tag tag (os ++ o ∷ []) t
        ≡ (has_outbound_with_tag tag os t || handler_has tag o t)
  unfolding has_outbound_with_tag
  has-append [] o t = ground arith
  has-append (p ∷ os) o t = ground (arith, has-append os o t)

  Exist-append :
      (os : List (Option H)) (o : Option H) (rs : List Rule)
      → Exist tag os rs
      → Exist tag (os ++ o ∷ []) rs
  Exist-append os o [] h = tt
  Exist-append os o (r ∷ rs) h =
      (ground (arith, has-append os o r.outbound_tag, h.0), Exist-append os o rs h.1)

  Exist-snoc :
      (os : List (Option H)) (r : Rule) (rs : List Rule)
      → has_outbound_with_tag tag os r.outbound_tag ≡ true
      → Exist tag os rs
      → Exist tag os (rs ++ r ∷ [])
  Exist-snoc os r [] p h = (p, tt)
  Exist-snoc os r (s ∷ rs) p h = (h.0, Exist-snoc os r rs p h.1)

-- The engine builds every outbound, with its tag.
pub record IsTotal {H D : Type 0} (e : Engine H D) : Type 0 where
  pub build : (d : D) → (h : H) × (e.build d ≡ some h) × (e.handler_tag h ≡ e.tag d)
  pub build_warp : (o : Outbound) (h : H) → e.build_warp o ≡ some h → e.handler_tag h ≡ o.tag
  pub block : H
  pub has_block : e.block_outbound ≡ some block
  pub block_tag : e.handler_tag block ≡ "block"
  pub dns : H
  pub has_dns : e.dns_outbound ≡ some dns
  pub dns_tag : e.handler_tag dns ≡ "dns_out"

module _ {H D : Type 0} (e : Engine H D) (total : IsTotal e) (sys : System)
    (service : Service) where
  abbrev Sound : Config H → Type 0
  Sound c =
      (has_outbound_with_tag e.handler_tag c.outbounds "block" ≡ true)
      × Exist e.handler_tag c.outbounds c.rules

  with_handler :
      (h : H) (r : Rule) (c : Config H)
      → e.handler_tag h ≡ r.outbound_tag
      → Sound c
      → Sound (add_rule r (add_outbound (some h) c))
  with_handler h r c p s = (
    ground (arith, has-append e.handler_tag c.outbounds (some h) "block", s.0),
    Exist-snoc e.handler_tag (c.outbounds ++ some h ∷ []) r c.rules
        (ground (
          arith,
          has-append e.handler_tag c.outbounds (some h) r.outbound_tag,
          str_iff (e.handler_tag h) r.outbound_tag,
          p,
        ))
        (Exist-append e.handler_tag c.outbounds (some h) c.rules s.1),
  )

  add_rule-Sound :
      (r : Rule) (c : Config H)
      → has_outbound_with_tag e.handler_tag c.outbounds r.outbound_tag ≡ true
      → Sound c
      → Sound (add_rule r c)
  add_rule-Sound r c p s = (s.0, Exist-snoc e.handler_tag c.outbounds r c.rules p s.1)

  -- The rule that comes first and the outbound that is added if it is missing.
  ensured :
      (b : Bool) (r : Rule) (o : Option H) (h : H) (c : Config H)
      → has_outbound_with_tag e.handler_tag c.outbounds r.outbound_tag ≡ b
      → o ≡ some h
      → e.handler_tag h ≡ r.outbound_tag
      → Sound c
      → Sound (if b then add_rule r c else add_outbound o (add_rule r c))
  ensured true r o h c p q t s = add_rule-Sound r c p s
  ensured false r o h c p q t s =
      subst (λ o. Sound (add_outbound o (add_rule r c))) (sym q) (with_handler h r c t s)

  custom-Sound :
      (r : Rule) (p : Parsed D) (c : Config H) → Sound c → Sound (route_parsed e r (some p) c)
  unfolding ensure_outbound
  custom-Sound r p c s =
      let b = total.build p.outbound in
      ensured (has_outbound_with_tag e.handler_tag c.outbounds (e.tag p.outbound))
        (record r { outbound_tag = e.tag p.outbound }) (e.build p.outbound) b.0 c refl b.1 b.2 s

  there-Sound :
      (b : Bool) (h : H) (r : Rule) (c : Config H)
      → has_outbound_with_tag e.handler_tag c.outbounds r.outbound_tag ≡ b
      → e.handler_tag h ≡ r.outbound_tag
      → Sound c
      → Sound (add_rule r (if b then c else add_outbound (some h) c))
  there-Sound true h r c p t s = add_rule-Sound r c p s
  there-Sound false h r c p t s = with_handler h r c t s

  built-Sound :
      (info : NodeInfo) (b : Built H) (c : Config H)
      → Tagged e.build_warp (warp_outbound_tag (some info)) b
      → Sound c
      → Sound (add_warp_built e info b c)
  unfolding append_catch_all_outbound_rule
  built-Sound info nothing c t s = elim t [ ]
  built-Sound info (refused tag err) c t s =
      choice_inv Sound (warp_fail_policy (some info) == "block")
        (add_rule (catch_all info.tag "block") c) c
        (add_rule-Sound (catch_all info.tag "block") c s.0 s) s
  built-Sound info (built h tag) c t s =
      there-Sound (has_outbound_with_tag e.handler_tag c.outbounds tag) h (catch_all info.tag tag) c
        refl (total.build_warp t.0 h t.1 ∙ t.2 ∙ sym t.3) s

  Sound-Keeps : Keeps e sys service Sound
  Sound-Keeps = record {
    dns = λ s c h. h;
    block = λ r c q h. add_rule-Sound r c (rw q h.0) h;
    custom = custom-Sound;
    warp = λ info common disk c p q h.
        built-Sound info (build_warp_outbound e.build_warp sys service info disk).0 c
          (build_warp_outbound-Tagged e.build_warp sys service info disk common p q) h;
  }

  first_block :
      (addresses : Option (List InterfaceAddress))
      → has_outbound_with_tag e.handler_tag (first_config e addresses).outbounds "block" ≡ true
  unfolding has_outbound_with_tag
  first_block addresses =
      rw total.has_block
        (ground (arith, str_iff (e.handler_tag total.block) "block", total.block_tag))

  first_dns :
      (addresses : Option (List InterfaceAddress))
      → has_outbound_with_tag e.handler_tag (first_config e addresses).outbounds "dns_out" ≡ true
  unfolding has_outbound_with_tag
  first_dns addresses =
      rw total.has_dns (ground (arith, str_iff (e.handler_tag total.dns) "dns_out", total.dns_tag))

  if_any-Sound :
      (tags : List String) (c : Config H)
      → has_outbound_with_tag e.handler_tag c.outbounds "dns_out" ≡ true
      → Sound c
      → Sound (dns_rule_if_any tags c)
  unfolding append_default_dns_rule
  if_any-Sound [] c p s = s
  if_any-Sound (t ∷ ts) c p s = add_rule-Sound (dns_rule (t ∷ ts)) c p s

  dns_rule_for-Sound :
      (split : Split) (c : Config H)
      → has_outbound_with_tag e.handler_tag c.outbounds "dns_out" ≡ true
      → Sound c
      → Sound (dns_rule_for split c)
  unfolding dns_rule_for
  dns_rule_for-Sound split c p s =
      choice_inv Sound split.has_warp (dns_rule_if_any split.non_warp_tags c)
        (append_default_dns_rule [] c) (if_any-Sound split.non_warp_tags c p s)
        (add_rule-Sound (dns_rule []) c p s)

-- If the engine builds every outbound that is described, each with its tag, every rule of the
-- configuration, of the nodes' routes, of WARP and of the DNS, names an outbound that is there.
pub collect-Exist :
    {H D : Type 0} (e : Engine H D) (sys : System) (service : Service)
    (addresses : Option (List InterfaceAddress)) (infos : List (Option NodeInfo)) (disk : Disk)
    → IsTotal e
    → let c = (collect e sys service addresses infos disk).0 in
      Exist e.handler_tag c.outbounds c.rules
unfolding collect
collect-Exist e sys service addresses infos disk total =
    (add_nodes_inv e sys service (Sound e total sys service) (Sound-Keeps e total sys service) infos
      _
      (dns_rule_for-Sound e total sys service (non_warp_inbound_tags infos)
        (first_config e addresses) (first_dns e total sys service addresses)
        (first_block e total sys service addresses, tt))).1
