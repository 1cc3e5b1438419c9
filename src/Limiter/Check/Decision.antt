-- ===== src/Limiter/Check/Decision.antt =====
-- limiter/limiter.go, `CheckLimit`: exactly when a connection is refused, and what a refusal
-- leaves.
use zicnode.Prelude.{
  Bool, true, false, String, ◌≡◌, refl, ◌↔◌, ◌⊎◌, inl, inr, Option, Option-cases, none, some, ℤ,
  pos, ◌<ℤ◌, ◌≤ℤ◌, load, is_some, trim_prefix, arith, str_iff, string_key,
}
use zicnode.Limiter.State.{Limiter, UserLimitInfo}
use zicnode.Limiter.Check.{refresh, alive_ips, tracks, admit, conclude, check_known, check_limit}

-- The address is among those of the user that are online.
abbrev pub is_online : String → String → Limiter → Bool
is_online taguuid ip l = elim (load taguuid l.user_online_ip) [
  | none ↦ false
  | some ips ↦ is_some (load ip ips)
]

-- Connections of this kind count as devices.
abbrev pub Counts : Limiter → Bool → Type 0
Counts l no_udp_source =
    (no_udp_source ≡ true) ⊎ (l.node_type ≡ "hysteria2") ⊎ (l.node_type ≡ "tuic")

-- A new device of a user who has as many as allowed, not seen in the last period.
pub record IsExcess (taguuid ip : String) (u : UserLimitInfo) (l : Limiter) : Type 0 where
  pub offline : is_online taguuid ip l ≡ false
  pub not_old : load ip l.old_user_online ≡ none
  pub limited : pos 0 <ℤ u.device_limit
  pub reached : u.device_limit ≤ℤ alive_ips u.uid l

pub tracks_iff : (l : Limiter) (b : Bool) → (tracks l b ≡ true) ↔ Counts l b
unfolding tracks
tracks_iff l b = ground (arith, str_iff l.node_type "hysteria2", str_iff l.node_type "tuic")

admit-refuse_iff :
    (taguuid ip : String) (u : UserLimitInfo) (l : Limiter)
    → ((admit taguuid ip u (alive_ips u.uid l) l).1 ≡ true) ↔ IsExcess taguuid ip u l
unfolding admit
admit-refuse_iff taguuid ip u l = ground arith

-- `refresh` touches the limits of users alone.
pub record SameDevices (l l' : Limiter) : Type 0 where
  pub same_type : l'.node_type ≡ l.node_type
  pub same_online : l'.user_online_ip ≡ l.user_online_ip
  pub same_old : l'.old_user_online ≡ l.old_user_online
  pub same_alive : l'.alive_list ≡ l.alive_list

pub refresh-SameDevices :
    (now : ℤ) (taguuid : String) (u : UserLimitInfo) (l : Limiter)
    → SameDevices l (refresh now taguuid u l)
unfolding refresh
refresh-SameDevices now taguuid u l = ground arith

pub reject-conclude :
    (taguuid : String) (u : UserLimitInfo) (speed alive : ℤ) (p : Limiter × Bool)
    → (conclude taguuid u speed alive p).1.reject ≡ p.1
unfolding conclude
reject-conclude taguuid u speed alive (l, true) = refl
reject-conclude taguuid u speed alive (l, false) = refl

IsExcess-refresh :
    (now : ℤ) (taguuid ip : String) (u : UserLimitInfo) (l : Limiter)
    → IsExcess taguuid ip u (refresh now taguuid u l) ↔ IsExcess taguuid ip u l
unfolding alive_ips
IsExcess-refresh now taguuid ip u l = ground (arith, refresh-SameDevices now taguuid u l)

pub tracks-refresh :
    (now : ℤ) (taguuid : String) (u : UserLimitInfo) (l : Limiter) (b : Bool)
    → tracks (refresh now taguuid u l) b ≡ tracks l b
unfolding tracks
tracks-refresh now taguuid u l b = ground (arith, refresh-SameDevices now taguuid u l)

Counts-refresh :
    (now : ℤ) (taguuid : String) (u : UserLimitInfo) (l : Limiter) (b : Bool)
    → Counts (refresh now taguuid u l) b ↔ Counts l b
Counts-refresh now taguuid u l b = ground (arith, refresh-SameDevices now taguuid u l)

check_known-reject_iff :
    (now : ℤ) (taguuid ip : String) (b : Bool) (u : UserLimitInfo) (l : Limiter)
    → ((check_known now taguuid ip b u l).1.reject ≡ true) ↔ (Counts l b × IsExcess taguuid ip u l)
unfolding check_known
check_known-reject_iff now taguuid ip b u l =
    let l' = refresh now taguuid u l in
    rw reject-conclude (
      ground (
        arith,
        tracks_iff l' b,
        Counts-refresh now taguuid u l b,
        IsExcess-refresh now taguuid ip u l,
        admit-refuse_iff taguuid ip u l',
      ))

-- Why a connection of the user with these limits is refused. A user without limits is unknown.
abbrev pub IsRefused : String → String → Bool → Option UserLimitInfo → Limiter → Type 0
IsRefused taguuid ip b none l = Unit
IsRefused taguuid ip b (some u) l = Counts l b × IsExcess taguuid ip u l

unknown_refused :
    (now : ℤ) (taguuid ip : String) (b : Bool) (l : Limiter)
    → load taguuid l.user_limit_info ≡ none
    → (check_limit now taguuid ip b l).1.reject ≡ true
unfolding check_limit
unknown_refused now taguuid ip b l h = rw (h, check_limit) refl

-- A connection of an unknown user is always refused, and one of a known user exactly for an excess
-- device, if the connection counts.
pub check_limit-reject_iff :
    (now : ℤ) (taguuid ip : String) (b : Bool) (l : Limiter)
    → ((check_limit now taguuid ip b l).1.reject ≡ true)
      ↔ IsRefused taguuid (trim_prefix ip "::ffff:") b (load taguuid l.user_limit_info) l
unfolding check_limit
check_limit-reject_iff now taguuid ip b l = elim (Option-cases (load taguuid l.user_limit_info)) [
  | inl e ↦ rw e ((λ p. tt), (λ p. unknown_refused now taguuid ip b l e))
  | inr (u, e) ↦
      rw (e, check_limit) (check_known-reject_iff now taguuid (trim_prefix ip "::ffff:") b u l)
]
