-- ===== src/Core/Warp/RoundTrip.antt =====
-- core/warp.go: an identity that has been registered is found again.
use zicnode.Prelude.{
  same_refl, load, store, true, false, Bool, Option, none, some, [], ◌∷◌, ◌≡◌, refl, sym, ap, ◌∙◌,
  arith, if◌then◌else◌, str_iff, string_key, load-store,
}
use zicnode.Panel.Config.{WarpSettings, NodeInfo}
use zicnode.Core.Warp.Choices.{first_non_empty_again, choose_addresses_again, or_bytes_again}
use zicnode.Core.Warp.Registered.{IsRegistered}
use zicnode.Prelude.{◌==◌, Option-cases, inl, inr}
use zicnode.Core.Warp.Registered.{Registers, register_warp_identity-Registers}
use zicnode.Core.Warp.Resolve.{
  Result, failed, resolved, kept, keep_registered, from_sidecar, Service,
  resolve_warp_runtime_config,
}
use zicnode.Core.Warp.{
  normalize_warp_settings, has_manual_warp_identity, runtime_from_warp_settings,
}
use zicnode.Core.Warp.Normal.{normalize_warp_settings-IsNormal}
use zicnode.Core.Warp.Resolve.{
  manual_first, register_warp_identity, resolve_warp_runtime_config, Service,
}
use zicnode.Core.Warp.Sidecar.{
  accept, Sidecar, warp_sidecar_path, Disk, load_warp_sidecar, save_warp_sidecar, System, loaded,
  sidecar_of,
}
use zicnode.Core.Warp.{RuntimeConfig, non_default_warp_endpoint, warp_default_endpoint}
use zicnode.Core.Warp.Normal.{AreTrimmed}

loaded-sidecar_of :
    (sys : System) (info : NodeInfo) (s : WarpSettings) (c : RuntimeConfig)
    → AreTrimmed s.addresses
    → IsRegistered s c
    → loaded (sidecar_of sys info c) s ≡ record c { source = "sidecar" }
loaded-sidecar_of sys info s c t h =
    rw
      (
        h.peer_public_key,
        h.endpoint,
        h.addresses,
        h.reserved,
        h.mtu,
        h.domain_strategy,
        first_non_empty_again s.peer_public_key h.peers [] h.has_peer,
        first_non_empty_again (non_default_warp_endpoint s.endpoint) h.endpoints
            (warp_default_endpoint ∷ []) h.has_endpoint,
        choose_addresses_again h.given s.addresses h.given_trimmed t,
        or_bytes_again s.reserved h.bytes h.bytes_there,
      )
      refl

accept-source :
    (s : WarpSettings) (o : Option (Option Sidecar)) (c : RuntimeConfig)
    → accept s o ≡ some c
    → c.source ≡ "sidecar"
accept-source s (some (some sidecar)) c h = ground arith
accept-source s (some none) c h = ground arith
accept-source s none c h = ground arith

loaded-source :
    (sys : System) (info : NodeInfo) (s : WarpSettings) (disk : Disk) (c : RuntimeConfig)
    → load_warp_sidecar sys info s disk ≡ some c
    → c.source ≡ "sidecar"
unfolding load_warp_sidecar
loaded-source sys info s disk c h =
    accept-source s (load (warp_sidecar_path sys (some info)) disk) c h

accept-sidecar_of :
    (sys : System) (info : NodeInfo) (s : WarpSettings) (c : RuntimeConfig)
    → AreTrimmed s.addresses
    → IsRegistered s c
    → accept s (some (some (sidecar_of sys info c))) ≡ some (record c { source = "sidecar" })
accept-sidecar_of sys info s c t h = rw (loaded-sidecar_of sys info s c t h) (
    ground (
      arith,
      str_iff c.private_key "",
      str_iff c.peer_public_key "",
      h.private_key,
      h.has_peer,
      h.peer_public_key,
    ))

written {ℓ} : {A : Type ℓ} (b : Bool) (x y : A) → (if b then some x else none) ≡ some y → x ≡ y
written true x y h = ground arith
written false x y h = ground arith

-- The sidecar that has been written is read.
load-save :
    (sys : System) (info : NodeInfo) (s : WarpSettings) (c : RuntimeConfig) (disk disk' : Disk)
    → AreTrimmed s.addresses
    → IsRegistered s c
    → save_warp_sidecar sys info c disk ≡ some disk'
    → load_warp_sidecar sys info s disk' ≡ some (record c { source = "sidecar" })
unfolding load_warp_sidecar save_warp_sidecar
load-save sys info s c disk disk' t h k =
    let path = warp_sidecar_path sys (some info) in
    let file = some (sidecar_of sys info c) in
    ap (λ d. accept s (load path d)) (sym (written _ (store path file disk) disk' k))
    ∙ ap (accept s) (load-store path path file disk)
    ∙ rw (same_refl path) (accept-sidecar_of sys info s c t h)

-- The same runtime, with the sidecar as the source of what was registered.
abbrev again : RuntimeConfig → RuntimeConfig
again c = record c { source = if c.source == "auto" then "sidecar" else c.source }

again_of_auto : (c : RuntimeConfig) → c.source ≡ "auto" → again c ≡ record c { source = "sidecar" }
again_of_auto c h = rw h refl

again_of_sidecar : (c : RuntimeConfig) → c.source ≡ "sidecar" → again c ≡ c
again_of_sidecar c h = rw h refl

resolved_as :
    (r : Result × Disk) (c c' : RuntimeConfig) (disk disk' : Disk)
    → r ≡ (resolved c', disk)
    → r ≡ (resolved c, disk')
    → (c ≡ c') × (disk' ≡ disk)
resolved_as r c c' disk disk' h k = ground (arith, sym h ∙ k)

saved_again :
    (sys : System) (info : NodeInfo) (s : WarpSettings) (disk disk' : Disk) (c : RuntimeConfig)
    (r r' : Result)
    → AreTrimmed s.addresses
    → Registers s r
    → keep_registered sys info disk r ≡ (resolved c, disk')
    → from_sidecar sys info disk' (load_warp_sidecar sys info s disk') r'
      ≡ (resolved (again c), disk')
saved_again sys info s disk disk' c (failed e) r' t g h = ground (arith, h)
saved_again sys info s disk disk' c (resolved c') r' t g h =
    elim (Option-cases (save_warp_sidecar sys info c' disk)) [
      | inl e ↦ (let k = sym (ap (kept c' disk) e) ∙ h in ground (arith, k))
      | inr (disk'', e) ↦
          (let p = resolved_as _ c c' disk'' disk' refl (sym (ap (kept c' disk) e) ∙ h) in
            rw (p.1, p.0, load-save sys info s c' disk disk'' t g e, again_of_auto c' g.source)
              refl)
    ]

found_again :
    (sys : System) (info : NodeInfo) (s : WarpSettings) (disk disk' : Disk) (c : RuntimeConfig)
    (r r' : Result)
    → AreTrimmed s.addresses
    → Registers s r
    → from_sidecar sys info disk (load_warp_sidecar sys info s disk) r ≡ (resolved c, disk')
    → from_sidecar sys info disk' (load_warp_sidecar sys info s disk') r'
      ≡ (resolved (again c), disk')
found_again sys info s disk disk' c r r' t g h =
    elim (Option-cases (load_warp_sidecar sys info s disk)) [
      | inl e ↦
          saved_again sys info s disk disk' c r r' t g
            (sym (ap (λ o. from_sidecar sys info disk o r) e) ∙ h)
      | inr (c', e) ↦
          (let p =
              resolved_as _ c c' disk disk' refl
                (sym (ap (λ o. from_sidecar sys info disk o r) e) ∙ h) in
            rw (p.1, p.0, e, again_of_sidecar c' (loaded-source sys info s disk c' e)) refl)
    ]

choice_again :
    (b m : Bool) (own c : RuntimeConfig) (disk disk' : Disk) (r r' : Result × Disk)
    → own.source ≡ "manual"
    → (r ≡ (resolved c, disk') → r' ≡ (resolved (again c), disk'))
    → manual_first b m own disk r ≡ (resolved c, disk')
    → manual_first b m own disk' r' ≡ (resolved (again c), disk')
choice_again true m own c disk disk' r r' e f h =
    let p = resolved_as _ c own disk disk' refl h in rw (p.0, e) refl
choice_again false true own c disk disk' r r' e f h = ground (arith, h)
choice_again false false own c disk disk' r r' e f h = f h

-- Once a runtime has been resolved, by keys of the settings, by a sidecar or by a registration, it is
-- resolved again with the disk that was left, whatever the service answers then: the keys, the peer,
-- the endpoint, the addresses, the reserved bytes, the MTU and the strategy are the same, nothing is
-- written, and only what a registration made now has the sidecar as its source.
pub resolve_warp_runtime_config-again :
    (sys : System) (service service' : Service) (info : NodeInfo) (settings : WarpSettings)
    (disk disk' : Disk) (c : RuntimeConfig)
    → resolve_warp_runtime_config sys service info settings disk ≡ (resolved c, disk')
    → resolve_warp_runtime_config sys service' info settings disk'
      ≡ (resolved (record c { source = if c.source == "auto" then "sidecar" else c.source }), disk')
unfolding resolve_warp_runtime_config runtime_from_warp_settings
resolve_warp_runtime_config-again sys service service' info settings disk disk' c h =
    let s = normalize_warp_settings settings in
    choice_again (has_manual_warp_identity s) (s.mode == "manual")
      (runtime_from_warp_settings s "manual") c disk disk'
      (from_sidecar sys info disk (load_warp_sidecar sys info s disk)
        (register_warp_identity service s))
      (from_sidecar sys info disk' (load_warp_sidecar sys info s disk')
        (register_warp_identity service' s))
      refl
      (found_again sys info s disk disk' c (register_warp_identity service s)
        (register_warp_identity service' s) (normalize_warp_settings-IsNormal settings).addresses.0
        (register_warp_identity-Registers service s))
      h
