-- ===== src/Panel/User.antt =====
-- api/zicboard/user.go: the data that the panel and the node exchange about users.
use zicnode.Prelude.{ℤ, String}

pub record UserInfo : Type 0 where
  pub id : ℤ
  pub uuid : String
  pub speed_limit : ℤ
  pub device_limit : ℤ

pub record OnlineUser : Type 0 where
  pub uid : ℤ
  pub ip : String

pub record UserTraffic : Type 0 where
  pub uid : ℤ
  pub upload : ℤ
  pub download : ℤ
