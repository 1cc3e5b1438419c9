-- ===== src/Limiter/State.antt =====
-- limiter/limiter.go: the records that a limiter keeps. A `sync.Map` is a `Map`; a pointer to a
-- record that only one map holds is the record; `DynamicBucket`s are shared by the connections and
-- stand in `buckets`, the heap of those that this limiter has made.
use zicnode.Prelude.{Bool, false, String, ℤ, pos, Map}
use zicnode.Rate.{DynamicBucket, Heap}

pub record UserLimitInfo : Type 0 where
  pub uid : ℤ
  pub speed_limit : ℤ
  pub device_limit : ℤ
  pub dynamic_speed_limit : ℤ
  pub expire_time : ℤ
  pub over_limit : Bool

abbrev pub no_limit_info : UserLimitInfo
no_limit_info = record {
  uid = pos 0;
  speed_limit = pos 0;
  device_limit = pos 0;
  dynamic_speed_limit = pos 0;
  expire_time = pos 0;
  over_limit = false;
}

pub record Limiter : Type 0 where
  pub node_type : String
  pub speed_limit : ℤ
  pub user_online_ip : Map String (Map String ℤ)
  pub old_user_online : Map String ℤ
  pub uuid_to_uid : Map String ℤ
  pub user_limit_info : Map String UserLimitInfo
  pub speed_limiter : Map String DynamicBucket
  pub alive_list : Map ℤ ℤ
  pub buckets : Heap

pub data Reason : Type 0 where
  allowed unknown_user device_limit_exceeded : Reason

pub record RejectInfo : Type 0 where
  pub reason : Reason
  pub uid : ℤ
  pub device_limit : ℤ
  pub alive_ip : ℤ
