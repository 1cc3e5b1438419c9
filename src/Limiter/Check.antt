-- ===== src/Limiter/Check.antt =====
-- limiter/limiter.go, `CheckLimit`: may this address of this user open a connection, and at what
-- rate. `now` is the time in seconds. The answer and the new state are returned; the calls that the
-- code makes on its maps are made in the same order.
pub mod Decision
pub mod Effects
pub mod Bucket
use zicnode.Prelude.{
  Bool, true, false, not, ◌&&◌, ◌||◌, String, Option, none, some, [], ◌∷◌, ℤ, pos, ltb_ℤ, leb_ℤ,
  Map, load, store, delete, trim_prefix, if◌then◌else◌, ◌==◌, string_key, int_key,
}
use zicnode.Rate.{DynamicBucket, new_dynamic_bucket}
use zicnode.Limiter.Speed.{determine_speed_limit, byte_rate}
use zicnode.Limiter.State.{
  Limiter, UserLimitInfo, RejectInfo, Reason, allowed, unknown_user, device_limit_exceeded,
}

pub record Answer : Type 0 where
  pub bucket : Option DynamicBucket
  pub reject : Bool
  pub info : RejectInfo

-- u.ExpireTime < time.Now().Unix() && u.ExpireTime != 0
unfoldable pub expired : ℤ → UserLimitInfo → Bool
expired now u = ltb_ℤ u.expire_time now && not (u.expire_time == pos 0)

-- An expired dynamic limit is cleared; a user who has no other limit is dropped.
unfoldable pub refresh : ℤ → String → UserLimitInfo → Limiter → Limiter
unfolding expired
refresh now taguuid u l =
    if expired now u
    then (if not (u.speed_limit == pos 0)
        then record l {
          user_limit_info =
              store taguuid (record u { dynamic_speed_limit = pos 0; expire_time = pos 0 })
                l.user_limit_info;
        }
        else record l { user_limit_info = delete taguuid l.user_limit_info })
    else l

-- `userLimit` after the same test.
unfoldable pub user_limit : ℤ → UserLimitInfo → ℤ
unfolding expired
user_limit now u =
    if expired now u
    then (if not (u.speed_limit == pos 0) then u.speed_limit else pos 0)
    else determine_speed_limit u.speed_limit u.dynamic_speed_limit

-- l.AliveList[uid], zero where it is missing
unfoldable pub alive_ips : ℤ → Limiter → ℤ
alive_ips uid l = elim (load uid l.alive_list) [ none ↦ pos 0 | some n ↦ n ]

unfoldable pub tracks : Limiter → Bool → Bool
tracks l no_udp_source = no_udp_source || l.node_type == "hysteria2" || l.node_type == "tuic"

-- deviceLimit > 0 && deviceLimit <= aliveIP
unfoldable pub over_device_limit : ℤ → ℤ → Bool
over_device_limit device_limit alive = ltb_ℤ (pos 0) device_limit && leb_ℤ device_limit alive

-- An address that was online in the last period is taken from the old list, if it is this user's.
abbrev forget_old : String → ℤ → ℤ → Limiter → Limiter
forget_old ip uid owner l =
    if owner == uid then record l { old_user_online = delete ip l.old_user_online } else l

abbrev with_online : Limiter → Map String (Map String ℤ) → Limiter
with_online l online = record l { user_online_ip = online }

-- The user is online already, from the addresses `old`.
unfoldable pub admit_online :
    String → String → UserLimitInfo → ℤ → Map String ℤ → Limiter → Limiter × Bool
unfolding over_device_limit
admit_online taguuid ip u alive old l =
    let kept = with_online l (store taguuid (store ip u.uid old) l.user_online_ip) in
    let undone = with_online l (store taguuid (delete ip (store ip u.uid old)) l.user_online_ip) in
    elim (load ip old) [
      | some _ ↦ (l, false)
      | none ↦ elim (load ip l.old_user_online) [
        | some owner ↦ (forget_old ip u.uid owner kept, false)
        | none ↦ if over_device_limit u.device_limit alive then (undone, true) else (kept, false)
      ]
    ]

-- The user has no address online.
unfoldable pub admit_first : String → String → UserLimitInfo → ℤ → Limiter → Limiter × Bool
unfolding over_device_limit
admit_first taguuid ip u alive l =
    let online = store taguuid ((ip, u.uid) ∷ []) l.user_online_ip in
    let kept = with_online l online in
    let undone = with_online l (delete taguuid online) in
    elim (load ip l.old_user_online) [
      | some owner ↦ (forget_old ip u.uid owner kept, false)
      | none ↦ if over_device_limit u.device_limit alive then (undone, true) else (kept, false)
    ]

unfoldable pub admit : String → String → UserLimitInfo → ℤ → Limiter → Limiter × Bool
unfolding admit_online admit_first
admit taguuid ip u alive l = elim (load taguuid l.user_online_ip) [
  | some old ↦ admit_online taguuid ip u alive old l
  | none ↦ admit_first taguuid ip u alive l
]

-- The user's bucket, made at the first connection.
unfoldable pub give_bucket : String → ℤ → Limiter → Limiter × Option DynamicBucket
give_bucket taguuid limit l =
    let made = new_dynamic_bucket limit l.buckets in
    if ltb_ℤ (pos 0) limit
    then elim (load taguuid l.speed_limiter) [
      | some d ↦ (l, some d)
      | none ↦ (
        record l { speed_limiter = store taguuid made.1 l.speed_limiter; buckets = made.0 },
        some made.1,
      )
    ]
    else (l, none)

abbrev info_of : Reason → UserLimitInfo → ℤ → RejectInfo
info_of reason u alive = record {
  reason = reason;
  uid = u.uid;
  device_limit = u.device_limit;
  alive_ip = alive;
}

abbrev unknown : RejectInfo
unknown = record { reason = unknown_user; uid = pos 0; device_limit = pos 0; alive_ip = pos 0 }

-- What follows the device test.
unfoldable pub conclude : String → UserLimitInfo → ℤ → ℤ → Limiter × Bool → Limiter × Answer
unfolding give_bucket
conclude taguuid u speed alive (l, true) =
    (l, record { bucket = none; reject = true; info = info_of device_limit_exceeded u alive })
conclude taguuid u speed alive (l, false) =
    let given = give_bucket taguuid (byte_rate (determine_speed_limit l.speed_limit speed)) l in
    (given.0, record { bucket = given.1; reject = false; info = info_of allowed u alive })

-- Connections that do not count as devices pass.
unfoldable pub test_device : String → String → Bool → UserLimitInfo → Limiter → Limiter × Bool
unfolding alive_ips tracks
test_device taguuid ip no_udp_source u l =
    if tracks l no_udp_source then admit taguuid ip u (alive_ips u.uid l) l else (l, false)

unfoldable pub check_known : ℤ → String → String → Bool → UserLimitInfo → Limiter → Limiter × Answer
unfolding refresh user_limit test_device conclude
check_known now taguuid ip no_udp_source u l =
    let l' = refresh now taguuid u l in
    conclude taguuid u (user_limit now u) (alive_ips u.uid l')
      (test_device taguuid ip no_udp_source u l')

unfoldable pub check_limit : ℤ → String → String → Bool → Limiter → Limiter × Answer
unfolding check_known
check_limit now taguuid ip no_udp_source l = elim (load taguuid l.user_limit_info) [
  | none ↦ (l, record { bucket = none; reject = true; info = unknown })
  | some u ↦ check_known now taguuid (trim_prefix ip "::ffff:") no_udp_source u l
]
