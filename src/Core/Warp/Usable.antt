-- ===== src/Core/Warp/Usable.antt =====
-- core/warp.go: what a resolved runtime is good for.
use zicnode.Prelude.{
  true, false, Bool, String, Option, none, some, List, [], ◌∷◌, pos, ◌≡◌, ◌≢◌, ◌⊎◌, refl, arith,
  inl, inr, Bool-cases, if◌then◌else◌, ◌==◌, str_iff, string_key, trim_space, ◌<ℤ◌, load, subst,
}
use zicnode.Panel.Config.{WarpSettings, NodeInfo}
use zicnode.Core.Warp.{
  AreBytes, RuntimeConfig, first_non_empty, valid_warp_domain_strategy, is_default_warp_addresses,
  has_manual_warp_identity, normalize_warp_settings, runtime_from_warp_settings,
  non_default_warp_endpoint, clean_string_list, ints_to_byte_slice,
}
use zicnode.Core.Warp.Normal.{IsNormal, normalize_warp_settings-IsNormal}
use zicnode.Core.Warp.Response.{choose_addresses}
use zicnode.Core.Warp.Bytes.{or_bytes-AreBytes, ints_to_byte_slice-AreBytes}
use zicnode.Core.Warp.Registered.{
  IsRegistered, Registers, register_warp_identity-Registers, default_last,
}
use zicnode.Core.Warp.{normalize_warp_settings}
use zicnode.Core.Warp.Sidecar.{
  loaded, System, Disk, Sidecar, accept, load_warp_sidecar, save_warp_sidecar, warp_sidecar_path,
}
use zicnode.Core.Warp.Resolve.{
  Result, failed, resolved, Service, kept, keep_registered, from_sidecar, manual_first,
  register_warp_identity, resolve_warp_runtime_config,
}

-- The sidecar on the disk has a peer key, of blanks alone.
abbrev pub HasBlankPeer : System → NodeInfo → Disk → Type 0
HasBlankPeer sys info disk =
    (f : Sidecar) × (load (warp_sidecar_path sys (some info)) disk ≡ some (some f))
    × (f.peer_public_key ≢ "")
    × (trim_space f.peer_public_key ≡ "")

-- `Blank` is the exception for the peer key.
pub record IsUsable (Blank : Type 0) (c : RuntimeConfig) : Type 0 where
  pub peer_public_key : (c.peer_public_key ≢ "") ⊎ Blank
  pub private_key : c.private_key ≢ ""
  pub endpoint : c.endpoint ≢ ""
  pub addresses : c.addresses ≢ []
  pub mtu : pos 0 <ℤ c.mtu
  pub domain_strategy : valid_warp_domain_strategy c.domain_strategy ≡ true
  pub reserved : AreBytes c.reserved

abbrev Usable : Type 0 → Result × Disk → Type 0
Usable B (failed e, disk) = Unit
Usable B (resolved c, disk) = IsUsable B c

choose_addresses_nonempty : (xs own : List String) → own ≢ [] → choose_addresses xs own ≢ []
choose_addresses_nonempty [] own h = h
choose_addresses_nonempty (x ∷ xs) own h = elim (Bool-cases (is_default_warp_addresses own)) [
  | inl e ↦ rw e (λ p. cc)
  | inr e ↦ rw e h
]

registered-IsUsable :
    (B : Type 0) (s : WarpSettings) (c : RuntimeConfig)
    → IsNormal s
    → AreBytes s.reserved
    → IsRegistered s c
    → IsUsable B c
registered-IsUsable B s c n b h = record {
  peer_public_key = inl (rw h.peer_public_key h.has_peer);
  private_key = h.private_key;
  endpoint = rw h.endpoint h.has_endpoint;
  addresses = rw h.addresses (choose_addresses_nonempty h.given s.addresses n.addresses.1);
  mtu = rw h.mtu n.mtu;
  domain_strategy = rw h.domain_strategy n.domain_strategy;
  reserved = rw h.reserved (or_bytes-AreBytes s.reserved h.bytes b h.bytes_there);
}

kept-Usable :
    (B : Type 0) (c : RuntimeConfig) (disk : Disk) (o : Option Disk)
    → IsUsable B c
    → Usable B (kept c disk o)
kept-Usable B c disk none u = tt
kept-Usable B c disk (some disk') u = u

keep_registered-Usable :
    (B : Type 0) (sys : System) (info : NodeInfo) (s : WarpSettings) (disk : Disk) (r : Result)
    → IsNormal s
    → AreBytes s.reserved
    → Registers s r
    → Usable B (keep_registered sys info disk r)
keep_registered-Usable B sys info s disk (failed e) n b h = tt
keep_registered-Usable B sys info s disk (resolved c) n b h =
    kept-Usable B c disk (save_warp_sidecar sys info c disk) (registered-IsUsable B s c n b h)

guarded {ℓ} :
    {A : Type ℓ} (b : Bool) (x y : A)
    → (if b then none else some x) ≡ some y
    → (b ≡ false) × (x ≡ y)
guarded true x y h = ground arith
guarded false x y h = (refl, ground arith)

-- The peer key of the settings, or that of a sidecar that has one.
first_peer : (x y : String) → y ≢ "" → (first_non_empty (x ∷ y ∷ []) ≢ "") ⊎ (trim_space y ≡ "")
unfolding first_non_empty
first_peer x y h = elim (Bool-cases (trim_space x == "")) [
  | inl e ↦ elim (Bool-cases (trim_space y == "")) [
    | inl k ↦ inr ((str_iff (trim_space y) "").0 k)
    | inr k ↦ inl (ground (arith, e, k, str_iff (trim_space y) "", str_iff (trim_space x) ""))
  ]
  | inr e ↦ inl (ground (arith, e, str_iff (trim_space x) ""))
]

or_blank : (P Q B : Type 0) → P ⊎ Q → (Q → B) → P ⊎ B
or_blank P Q B (inl p) q = inl p
or_blank P Q B (inr x) q = inr (q x)

loaded-IsUsable :
    (B : Type 0) (s : WarpSettings) (f : Sidecar)
    → IsNormal s
    → AreBytes s.reserved
    → f.private_key ≢ ""
    → f.peer_public_key ≢ ""
    → (trim_space f.peer_public_key ≡ "" → B)
    → IsUsable B (loaded f s)
loaded-IsUsable B s f n b h p q = record {
  peer_public_key = or_blank _ _ B (first_peer s.peer_public_key f.peer_public_key p) q;
  private_key = h;
  endpoint = default_last (non_default_warp_endpoint s.endpoint) f.endpoint;
  addresses = choose_addresses_nonempty (clean_string_list f.addresses) s.addresses n.addresses.1;
  mtu = n.mtu;
  domain_strategy = n.domain_strategy;
  reserved =
      or_bytes-AreBytes s.reserved (ints_to_byte_slice f.reserved) b
        (ints_to_byte_slice-AreBytes f.reserved);
}

accept-IsUsable :
    (B : Type 0) (s : WarpSettings) (o : Option (Option Sidecar)) (c : RuntimeConfig)
    → IsNormal s
    → AreBytes s.reserved
    → ((f : Sidecar)
        → o ≡ some (some f)
        → f.peer_public_key ≢ ""
        → trim_space f.peer_public_key ≡ ""
        → B)
    → accept s o ≡ some c
    → IsUsable B c
accept-IsUsable B s (some (some f)) c n b q h =
    let g = guarded _ (loaded f s) c h in
    let peer : f.peer_public_key ≢ "" = ground (arith, str_iff f.peer_public_key "", g.0) in
    subst (IsUsable B) g.1 (
      loaded-IsUsable B s f n b (ground (arith, str_iff f.private_key "", g.0)) peer
        (q f refl peer))
accept-IsUsable B s (some none) c n b q h = ground arith
accept-IsUsable B s none c n b q h = ground arith

from_sidecar-Usable :
    (B : Type 0) (sys : System) (info : NodeInfo) (s : WarpSettings) (disk : Disk)
    (o : Option RuntimeConfig) (r : Result)
    → ((c : RuntimeConfig) → o ≡ some c → IsUsable B c)
    → Usable B (keep_registered sys info disk r)
    → Usable B (from_sidecar sys info disk o r)
from_sidecar-Usable B sys info s disk (some c) r u k = u c refl
from_sidecar-Usable B sys info s disk none r u k = k

manual-IsUsable :
    (B : Type 0) (s : WarpSettings)
    → IsNormal s
    → AreBytes s.reserved
    → has_manual_warp_identity s ≡ true
    → IsUsable B (runtime_from_warp_settings s "manual")
unfolding has_manual_warp_identity runtime_from_warp_settings
manual-IsUsable B s n b h = record {
  peer_public_key =
      inl (ground (arith, str_iff (trim_space s.peer_public_key) "", n.peer_public_key));
  private_key = ground (arith, str_iff (trim_space s.private_key) "", n.private_key);
  endpoint = n.endpoint.1;
  addresses = n.addresses.1;
  mtu = n.mtu;
  domain_strategy = n.domain_strategy;
  reserved = b;
}

manual_first-Usable :
    (B : Type 0) (b m : Bool) (c : RuntimeConfig) (disk : Disk) (r : Result × Disk)
    → (b ≡ true → IsUsable B c)
    → Usable B r
    → Usable B (manual_first b m c disk r)
manual_first-Usable B true m c disk r h k = h refl
manual_first-Usable B false true c disk r h k = tt
manual_first-Usable B false false c disk r h k = k

resolve-Usable :
    (sys : System) (service : Service) (info : NodeInfo) (settings : WarpSettings) (disk : Disk)
    → AreBytes settings.reserved
    → Usable
        (HasBlankPeer sys info disk)
        (resolve_warp_runtime_config sys service info settings disk)
unfolding resolve_warp_runtime_config load_warp_sidecar
resolve-Usable sys service info settings disk b =
    let B = HasBlankPeer sys info disk in
    let s = normalize_warp_settings settings in
    let n = normalize_warp_settings-IsNormal settings in
    let r = register_warp_identity service s in
    let o = load (warp_sidecar_path sys (some info)) disk in
    manual_first-Usable B (has_manual_warp_identity s) (s.mode == "manual")
      (runtime_from_warp_settings s "manual") disk
      (from_sidecar sys info disk (load_warp_sidecar sys info s disk) r) (manual-IsUsable B s n b)
      (from_sidecar-Usable B sys info s disk (load_warp_sidecar sys info s disk) r
        (λ c e. accept-IsUsable B s o c n b (λ f k p q. (f, k, p, q)) e)
        (keep_registered-Usable B sys info s disk r n b
          (register_warp_identity-Registers service s)))

-- A runtime that is resolved, by whatever way, has a private key, an endpoint, an address, a positive
-- MTU and a known domain strategy, and its reserved numbers are bytes, if those of the settings are,
-- whatever a sidecar or the answer of the service holds. It has a peer key too, unless the sidecar on
-- the disk has one of blanks alone.
pub resolve_warp_runtime_config-IsUsable :
    (sys : System) (service : Service) (info : NodeInfo) (settings : WarpSettings)
    (disk disk' : Disk) (c : RuntimeConfig)
    → AreBytes settings.reserved
    → resolve_warp_runtime_config sys service info settings disk ≡ (resolved c, disk')
    → IsUsable (HasBlankPeer sys info disk) c
resolve_warp_runtime_config-IsUsable sys service info settings disk disk' c b h =
    subst (Usable _) h (resolve-Usable sys service info settings disk b)
