-- ===== src/Limiter/Online.antt =====
-- limiter/limiter.go, `GetOnlineDevice`: reports the addresses that were seen since the last call,
-- keeps them as the old ones, and starts the next period with none.
pub mod Report
pub mod Grace
use zicnode.Prelude.{String, List, [], ◌∷◌, ◌++◌, ℤ, Map, store, delete, string_key}
use zicnode.Panel.User.{OnlineUser}
use zicnode.Limiter.State.{Limiter}

-- The state of the two nested `Range` calls.
pub record Sweep : Type 0 where
  pub online_user : List OnlineUser
  pub old_user_online : Map String ℤ
  pub user_online_ip : Map String (Map String ℤ)

unfoldable pub sweep_ips : Map String ℤ → Sweep → Sweep
sweep_ips [] s = s
sweep_ips ((ip, uid) ∷ rest) s = sweep_ips rest (record s {
  old_user_online = store ip uid s.old_user_online;
  online_user = s.online_user ++ record { uid = uid; ip = ip } ∷ [];
})

unfoldable pub sweep_users : Map String (Map String ℤ) → Sweep → Sweep
unfolding sweep_ips
sweep_users [] s = s
sweep_users ((taguuid, ips) ∷ rest) s =
    let s' = sweep_ips ips s in
    sweep_users rest (record s' { user_online_ip = delete taguuid s'.user_online_ip })

unfoldable pub get_online_device : Limiter → Limiter × List OnlineUser
unfolding sweep_users
get_online_device l =
    let s =
      sweep_users l.user_online_ip
        (record { online_user = []; old_user_online = []; user_online_ip = l.user_online_ip }) in
    (
      record l { old_user_online = s.old_user_online; user_online_ip = s.user_online_ip },
      s.online_user,
    )
