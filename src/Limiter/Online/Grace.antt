-- ===== src/Limiter/Online/Grace.antt =====
-- limiter/limiter.go, `GetOnlineDevice` and then `CheckLimit`: an address that was just reported
-- may come back, whatever the panel counts.
use zicnode.Prelude.{
  Bool, true, false, ◌||◌, String, ◌≡◌, refl, ◌∙◌, inl, inr, some, is_some, [], ◌∷◌, ℤ, Map, load,
  arith, subst, load-store, Bool-cases, string_key, trim_prefix,
}
use zicnode.Limiter.State.{Limiter, UserLimitInfo}
use zicnode.Limiter.Online.{Sweep, sweep_ips, sweep_users, get_online_device}
use zicnode.Limiter.Check.{check_limit}
use zicnode.Limiter.Check.Decision.{IsRefused, check_limit-reject_iff}

sweep_ips-old :
    (j : String) (ips : Map String ℤ) (s : Sweep)
    → is_some (load j (sweep_ips ips s).old_user_online)
      ≡ (is_some (load j ips) || is_some (load j s.old_user_online))
unfolding sweep_ips load
sweep_ips-old j [] s = refl
sweep_ips-old j ((ip, uid) ∷ rest) s =
    sweep_ips-old j rest _ ∙ ground (arith, load-store ip j uid s.old_user_online)

-- Some user has the address online.
abbrev pub seen : String → Map String (Map String ℤ) → Bool
seen j [] = false
seen j ((t, ips) ∷ rest) = is_some (load j ips) || seen j rest

sweep_users-old :
    (j : String) (m : Map String (Map String ℤ)) (s : Sweep)
    → is_some (load j (sweep_users m s).old_user_online)
      ≡ (seen j m || is_some (load j s.old_user_online))
unfolding sweep_users
sweep_users-old j [] s = refl
sweep_users-old j ((t, ips) ∷ rest) s =
    sweep_users-old j rest _ ∙ ground (arith, sweep_ips-old j ips s)

-- The old addresses are those that some user had online.
old-get_online_device :
    (j : String) (l : Limiter)
    → is_some (load j (get_online_device l).0.old_user_online) ≡ seen j l.user_online_ip
unfolding get_online_device load
old-get_online_device j l = sweep_users-old j l.user_online_ip _ ∙ ground arith

-- An address that any user of the node had online in the period that was just reported is let in
-- at once for every known user, whatever the device limit and the panel's count say.
pub grace :
    (now : ℤ) (t ip : String) (b : Bool) (u : UserLimitInfo) (l : Limiter)
    → load t l.user_limit_info ≡ some u
    → seen (trim_prefix ip "::ffff:") l.user_online_ip ≡ true
    → (check_limit now t ip b (get_online_device l).0).1.reject ≡ false
unfolding get_online_device
grace now t ip b u l known was = elim (Bool-cases (check_limit now t ip b l').1.reject) [
  | inl r ↦
      let refused = (check_limit-reject_iff now t ip b l').0 r in
      let excess = (subst (λ o. IsRefused t (trim_prefix ip "::ffff:") b o l') still refused).1 in
      ground (arith, excess.not_old, old-get_online_device (trim_prefix ip "::ffff:") l)
  | inr a ↦ a
]
  where
    l' : Limiter
    l' = (get_online_device l).0

    still : load t l'.user_limit_info ≡ some u
    still = known
