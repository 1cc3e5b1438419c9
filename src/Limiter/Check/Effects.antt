-- ===== src/Limiter/Check/Effects.antt =====
-- limiter/limiter.go, `CheckLimit`: what it does to the addresses that are online and to the rest
-- of the state, on every branch.
use zicnode.Prelude.{
  Bool, true, false, not, ◌&&◌, ◌||◌, String, ◌≡◌, refl, sym, ◌∙◌, inl, inr, none, some, [], ◌∷◌, ℤ,
  load, store, trim_prefix, arith, str_iff, Bool-cases, Option-cases, string_key, store_same,
  delete-store_absent, load-store, ◌==◌,
}
use zicnode.Limiter.State.{Limiter, UserLimitInfo}
use zicnode.Limiter.Check.{
  refresh, user_limit, alive_ips, tracks, admit, test_device, conclude, check_known, check_limit,
}
use zicnode.Limiter.Check.Decision.{is_online, reject-conclude, refresh-SameDevices, tracks-refresh}

-- A refused device is taken off the addresses again.
admit-refused :
    (taguuid ip : String) (u : UserLimitInfo) (alive : ℤ) (l : Limiter)
    → (admit taguuid ip u alive l).1 ≡ true
    → (admit taguuid ip u alive l).0 ≡ l
unfolding admit
admit-refused taguuid ip u alive l h = elim (Option-cases (load taguuid l.user_online_ip)) [
  | inl e ↦ ground (arith, delete-store_absent taguuid ((ip, u.uid) ∷ []) l.user_online_ip)
  | inr (old, e) ↦
      ground (arith, delete-store_absent ip u.uid old, store_same taguuid old l.user_online_ip)
]

conclude-refused :
    (taguuid : String) (u : UserLimitInfo) (speed alive : ℤ) (p : Limiter × Bool)
    → p.1 ≡ true
    → (conclude taguuid u speed alive p).0 ≡ p.0
unfolding conclude
conclude-refused taguuid u speed alive (l, true) h = refl
conclude-refused taguuid u speed alive (l, false) h = cc

-- The state that a refusal leaves: an expired dynamic limit has been cleared, and no more.
abbrev pub refreshed : ℤ → String → Limiter → Limiter
refreshed now taguuid l = elim (load taguuid l.user_limit_info) [
  | none ↦ l
  | some u ↦ refresh now taguuid u l
]

reject_known :
    (now : ℤ) (taguuid ip : String) (b : Bool) (u : UserLimitInfo) (l : Limiter)
    → (check_known now taguuid ip b u l).1.reject ≡ true
    → (check_known now taguuid ip b u l).0 ≡ refresh now taguuid u l
unfolding check_known
reject_known now taguuid ip b u l h =
    let l' = refresh now taguuid u l in
    let alive = alive_ips u.uid l' in
    let p = test_device taguuid ip b u l' in
    let r : p.1 ≡ true = sym (reject-conclude taguuid u (user_limit now u) alive p) ∙ h in
    conclude-refused taguuid u (user_limit now u) alive p r
    ∙ ground (arith, r, admit-refused taguuid ip u alive l')

-- A refused connection leaves the limiter as it was, but for a dynamic limit that has run out.
pub check_limit-refused :
    (now : ℤ) (taguuid ip : String) (b : Bool) (l : Limiter)
    → (check_limit now taguuid ip b l).1.reject ≡ true
    → (check_limit now taguuid ip b l).0 ≡ refreshed now taguuid l
unfolding check_limit
check_limit-refused now taguuid ip b l h = elim (Option-cases (load taguuid l.user_limit_info)) [
  | inl e ↦ rw (e, check_limit, refreshed)
  | inr (u, e) ↦
      rw (e, check_limit, refreshed)
        (reject_known now taguuid (trim_prefix ip "::ffff:") b u l (rw (e, check_limit) at h))
]

-- An address of a user that has been admitted is online, and no other pair changes.
admit-online :
    (taguuid ip t j : String) (u : UserLimitInfo) (alive : ℤ) (l : Limiter)
    → is_online t j (admit taguuid ip u alive l).0
      ≡ ((taguuid == t && ip == j && not (admit taguuid ip u alive l).1) || is_online t j l)
unfolding admit load
admit-online taguuid ip t j u alive l = elim (Bool-cases (admit taguuid ip u alive l).1) [
  | inl r ↦ ground (arith, admit-refused taguuid ip u alive l r)
  | inr a ↦ elim (Option-cases (load taguuid l.user_online_ip)) [
    | inl e ↦ ground (
      arith,
      load-store taguuid t ((ip, u.uid) ∷ []) l.user_online_ip,
      str_iff taguuid t,
      str_iff ip j,
    )
    | inr (old, e) ↦ ground (
      arith,
      load-store taguuid t (store ip u.uid old) l.user_online_ip,
      load-store ip j u.uid old,
      str_iff taguuid t,
      str_iff ip j,
    )
  ]
]

conclude-online :
    (taguuid : String) (u : UserLimitInfo) (speed alive : ℤ) (p : Limiter × Bool)
    → (conclude taguuid u speed alive p).0.user_online_ip ≡ p.0.user_online_ip
unfolding conclude
conclude-online taguuid u speed alive (l, true) = refl
conclude-online taguuid u speed alive (l, false) = ground arith

online_known :
    (now : ℤ) (taguuid ip t j : String) (b : Bool) (u : UserLimitInfo) (l : Limiter)
    → is_online t j (check_known now taguuid ip b u l).0 ≡ (
        (taguuid == t && ip == j && tracks l b && not (check_known now taguuid ip b u l).1.reject)
        || is_online t j l)
unfolding check_known
online_known now taguuid ip t j b u l =
    let l' = refresh now taguuid u l in
    let alive = alive_ips u.uid l' in
    let p = test_device taguuid ip b u l' in
    ground (
      arith,
      conclude-online taguuid u (user_limit now u) alive p,
      reject-conclude taguuid u (user_limit now u) alive p,
      admit-online taguuid ip t j u alive l',
      refresh-SameDevices now taguuid u l,
      tracks-refresh now taguuid u l b,
    )

-- Exactly the pair of a counted connection of a known user that is let in becomes online; no other
-- pair of a user and an address changes.
pub check_limit-online :
    (now : ℤ) (taguuid ip t j : String) (b : Bool) (l : Limiter)
    → is_online t j (check_limit now taguuid ip b l).0 ≡ (
        (taguuid == t
          && trim_prefix ip "::ffff:" == j
          && tracks l b
          && not (check_limit now taguuid ip b l).1.reject)
        || is_online t j l)
unfolding check_limit
check_limit-online now taguuid ip t j b l = elim (Option-cases (load taguuid l.user_limit_info)) [
  | inl e ↦ rw (e, check_limit) (ground arith)
  | inr (u, e) ↦ rw (e, check_limit) (online_known now taguuid (trim_prefix ip "::ffff:") t j b u l)
]
