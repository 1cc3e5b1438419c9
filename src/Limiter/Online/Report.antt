-- ===== src/Limiter/Online/Report.antt =====
-- limiter/limiter.go, `GetOnlineDevice`: what is reported, what is kept as old, and what is
-- cleared.
use mathlib.Core.List.{append_assoc, append-nil}
use zicnode.Prelude.{
  String, ◌≡◌, refl, sym, ap, ◌∙◌, none, is_some, List, [], ◌∷◌, ◌++◌, ℤ, Map, load, delete, arith,
  load-delete, string_key, if◌then◌else◌,
}
use zicnode.Panel.User.{OnlineUser}
use zicnode.Limiter.State.{Limiter}
use zicnode.Limiter.Online.{Sweep, sweep_ips, sweep_users, get_online_device}

-- The pairs of a user id and an address that are online.
abbrev pub devices : Map String ℤ → List OnlineUser
devices [] = []
devices ((ip, uid) ∷ rest) = record { uid = uid; ip = ip } ∷ devices rest

abbrev pub all_devices : Map String (Map String ℤ) → List OnlineUser
all_devices [] = []
all_devices ((t, ips) ∷ rest) = devices ips ++ all_devices rest

sweep_ips-report :
    (ips : Map String ℤ) (s : Sweep) → (sweep_ips ips s).online_user ≡ s.online_user ++ devices ips
unfolding sweep_ips
sweep_ips-report [] s = sym (append-nil s.online_user)
sweep_ips-report ((ip, uid) ∷ rest) s =
    sweep_ips-report rest _ ∙ append_assoc s.online_user _ (devices rest)

sweep_users-report :
    (m : Map String (Map String ℤ)) (s : Sweep)
    → (sweep_users m s).online_user ≡ s.online_user ++ all_devices m
unfolding sweep_users
sweep_users-report [] s = sym (append-nil s.online_user)
sweep_users-report ((t, ips) ∷ rest) s =
    sweep_users-report rest _
    ∙ ap (λ xs. xs ++ all_devices rest) (sweep_ips-report ips s)
    ∙ append_assoc s.online_user (devices ips) (all_devices rest)

-- The report lists every pair that was online, each as often as it was, and nothing else.
pub get_online_device-report :
    (l : Limiter) → (get_online_device l).1 ≡ all_devices l.user_online_ip
unfolding get_online_device
get_online_device-report l = sweep_users-report l.user_online_ip _

online-sweep_ips :
    (ips : Map String ℤ) (s : Sweep) → (sweep_ips ips s).user_online_ip ≡ s.user_online_ip
unfolding sweep_ips
online-sweep_ips [] s = refl
online-sweep_ips ((ip, uid) ∷ rest) s = online-sweep_ips rest _

load-sweep_users :
    (t : String) (m : Map String (Map String ℤ)) (s : Sweep)
    → load t (sweep_users m s).user_online_ip
      ≡ (if is_some (load t m) then none else load t s.user_online_ip)
unfolding sweep_users load
load-sweep_users t [] s = refl
load-sweep_users t ((j, ips) ∷ rest) s =
    let s' = sweep_ips ips s in
    load-sweep_users t rest (record s' { user_online_ip = delete j s'.user_online_ip })
    ∙ ground (arith, online-sweep_ips ips s, load-delete j t s'.user_online_ip)
