-- ===== src/Core/Warp/Built.antt =====
-- core/warp.go: the tag of the outbound that `buildWarpOutbound` gives.
use zicnode.Prelude.{
  Bool, true, false, none, sym, subst, arith, true, String, Option, some, ◌≡◌, refl,
}
use zicnode.Panel.Config.{WarpSettings, NodeInfo, CommonNode}
use zicnode.Core.Warp.{warp_outbound_tag}
use zicnode.Core.Warp.Sidecar.{System, Disk}
use zicnode.Core.Warp.Resolve.{
  Service, Result, failed, resolved, Outbound, outbound_of, Built, nothing, refused, built,
  built_of, handled, build_if, build_common, build_warp_outbound, resolve_warp_runtime_config,
}

-- An answer for a node with WARP: an error, or what was built of an outbound with the tag.
abbrev pub Tagged : {H : Type 0} → (Outbound → Option H) → String → Built H → Type 0
Tagged build tag nothing = ⊥
Tagged build tag (refused t err) = Unit
Tagged build tag (built h t) = (o : Outbound) × (build o ≡ some h) × (o.tag ≡ tag) × (t ≡ tag)

handled-Tagged :
    {H : Type 0} (build : Outbound → Option H) (o : Outbound) (r : Option H)
    → build o ≡ r
    → Tagged build o.tag (handled o.tag r)
handled-Tagged build o none e = tt
handled-Tagged build o (some h) e = (o, e, refl, refl)

built_of-Tagged :
    {H : Type 0} (build : Outbound → Option H) (tag : String) (r : Result)
    → Tagged build tag (built_of build tag r)
unfolding outbound_of
built_of-Tagged build tag (failed err) = tt
built_of-Tagged build tag (resolved c) =
    handled-Tagged build (outbound_of tag c) (build (outbound_of tag c)) refl

module _ {H : Type 0} (build : Outbound → Option H) (sys : System) (service : Service)
    (info : NodeInfo) (disk : Disk) where
  build_if-Tagged :
      (settings : WarpSettings) (b : Bool)
      → b ≡ true
      → Tagged build
          (warp_outbound_tag (some info))
          (build_if build sys service info settings disk b).0
  build_if-Tagged settings true e =
      built_of-Tagged build (warp_outbound_tag (some info))
        (resolve_warp_runtime_config sys service info settings disk).0
  build_if-Tagged settings false e = ground (arith, e)

  pub build_warp_outbound-Tagged :
      (common : CommonNode)
      → info.common ≡ some common
      → common.warp_settings.enable ≡ true
      → Tagged build
          (warp_outbound_tag (some info))
          (build_warp_outbound build sys service info disk).0
  unfolding build_warp_outbound
  build_warp_outbound-Tagged common p q =
      subst
        (λ o.
          Tagged build (warp_outbound_tag (some info))
            (build_common build sys service info disk o).0)
        (sym p) (build_if-Tagged common.warp_settings common.warp_settings.enable q)
