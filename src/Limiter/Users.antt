-- ===== src/Limiter/Users.antt =====
-- limiter/limiter.go, `UpdateUser` and `UpdateDynamicSpeedLimit`, and the users that `AddLimiter`
-- starts with.
pub mod Lookup
pub mod Throttle
use zicnode.Prelude.{
  not, String, Option, none, some, List, ℤ, pos, ltb_ℤ, Map, load, store, delete, each,
  if◌then◌else◌, ◌==◌, string_key, int_key,
}
use zicnode.Format.{user_tag}
use zicnode.Panel.User.{UserInfo}
use zicnode.Rate.{new_dynamic_bucket, update}
use zicnode.Limiter.Speed.{determine_speed_limit, byte_rate}
use zicnode.Limiter.State.{Limiter, UserLimitInfo, no_limit_info}

-- The record of a user who is added.
unfoldable pub limit_info_of : UserInfo → UserLimitInfo
limit_info_of user = record no_limit_info {
  uid = user.id;
  speed_limit = if not (user.speed_limit == pos 0) then user.speed_limit else pos 0;
  device_limit = if not (user.device_limit == pos 0) then user.device_limit else pos 0;
}

unfoldable pub delete_user : String → UserInfo → Limiter → Limiter
delete_user tag user l = record l {
  user_limit_info = delete (user_tag tag user.uuid) l.user_limit_info;
  user_online_ip = delete (user_tag tag user.uuid) l.user_online_ip;
  speed_limiter = delete (user_tag tag user.uuid) l.speed_limiter;
  uuid_to_uid = delete user.uuid l.uuid_to_uid;
  alive_list = delete user.id l.alive_list;
}

-- The limits of a known user; an unknown one stays unknown.
unfoldable pub modify_info : String → UserInfo → Map String UserLimitInfo → Map String UserLimitInfo
modify_info taguuid user infos = elim (load taguuid infos) [
  | none ↦ infos
  | some u ↦
      store taguuid (record u { speed_limit = user.speed_limit; device_limit = user.device_limit })
        infos
]

-- A bucket that is there is given the new rate in place, so that open connections feel it.
unfoldable pub modify_bucket : String → ℤ → Limiter → Limiter
modify_bucket taguuid limit l =
    let made = new_dynamic_bucket limit l.buckets in
    if ltb_ℤ (pos 0) limit
    then elim (load taguuid l.speed_limiter) [
      | some d ↦ record l { buckets = update d limit l.buckets }
      | none ↦ record l { speed_limiter = store taguuid made.1 l.speed_limiter; buckets = made.0 }
    ]
    else record l { speed_limiter = delete taguuid l.speed_limiter }

unfoldable pub modify_user : String → UserInfo → Limiter → Limiter
unfolding modify_info modify_bucket
modify_user tag user l =
    let taguuid = user_tag tag user.uuid in
    modify_bucket taguuid (byte_rate (determine_speed_limit l.speed_limit user.speed_limit))
      (record l { user_limit_info = modify_info taguuid user l.user_limit_info })

unfoldable pub add_user : String → UserInfo → Limiter → Limiter
unfolding limit_info_of
add_user tag user l = record l {
  user_limit_info = store (user_tag tag user.uuid) (limit_info_of user) l.user_limit_info;
  uuid_to_uid = store user.uuid user.id l.uuid_to_uid;
}

unfoldable pub update_user :
    String → List UserInfo → List UserInfo → List UserInfo → Limiter → Limiter
update_user tag added deleted modified l =
    each (add_user tag) added (each (modify_user tag) modified (each (delete_user tag) deleted l))

-- The error is "not found".
unfoldable pub update_dynamic_speed_limit : String → String → ℤ → ℤ → Limiter → Option Limiter
update_dynamic_speed_limit tag uuid limit expire l =
    elim (load (user_tag tag uuid) l.user_limit_info) [
      | none ↦ none
      | some info ↦ some (record l {
        user_limit_info =
            store (user_tag tag uuid)
              (record info { dynamic_speed_limit = limit; expire_time = expire }) l.user_limit_info;
      })
    ]
