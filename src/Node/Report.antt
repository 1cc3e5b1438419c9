-- ===== src/Node/Report.antt =====
-- node/user.go, `reportUserTrafficTask`: one report of the traffic and of the devices online.
pub mod Grouped
pub mod Lost
use zicnode.Prelude.{
  ℕ, Bool, true, false, not, String, Option, none, some, is_some, List, [], ◌∷◌, ◌++◌, ℤ, pos,
  add64, mul64, ltb_ℤ, Map, load, store, each, string_key, int_key, ◌==◌, if◌then◌else◌,
}
use zicnode.Panel.User.{OnlineUser, UserTraffic}
use zicnode.Panel.Report.{report_body}
use zicnode.Limiter.State.{Limiter}
use zicnode.Limiter.Online.{get_online_device}
use zicnode.Core.Traffic.{get_user_traffic_slice}
use zicnode.Counter.{TrafficCounter}

-- How a call of the panel ends, after the retries of its client.
pub data Sent : Type 0 where
  accepted failed interrupted : Sent

-- What the task uses of the controller: the two settings are 0 without a base configuration.
pub record Reporter : Type 0 where
  pub tag : String
  pub report_min : ℤ
  pub device_min : ℤ
  pub uid_map : Map String ℤ
  pub counter : Map String TrafficCounter
  pub limiter : Limiter

-- The users whose reported traffic is too small to count as online.
unfoldable pub nocount_uid : ℤ → List UserTraffic → Map {0, 0} ℤ Unit
nocount_uid device_min [] = []
nocount_uid device_min (t ∷ ts) =
    let rest = nocount_uid device_min ts in
    if ltb_ℤ (add64 t.upload t.download) (mul64 device_min (pos 1000))
    then store t.uid tt rest
    else rest

unfoldable pub countable : Map {0, 0} ℤ Unit → List OnlineUser → List OnlineUser
countable nocount [] = []
countable nocount (o ∷ os) =
    let rest = countable nocount os in if is_some (load o.uid nocount) then rest else o ∷ rest

-- data[uid] = append(data[uid], ip)
unfoldable pub add_online : OnlineUser → Map ℤ (List String) → Map ℤ (List String)
add_online o grouped = elim (load o.uid grouped) [
  | none ↦ store o.uid (o.ip ∷ []) grouped
  | some ips ↦ store o.uid (ips ++ o.ip ∷ []) grouped
]

unfoldable pub online_body : List OnlineUser → Map ℤ (List String)
unfolding add_online
online_body users = each add_online users []

-- The bodies that are sent, none where nothing is, and whether the task returns the context's
-- error.
pub record Reported : Type 0 where
  pub reporter : Reporter
  pub traffic : Option (Map ℤ (ℤ × ℤ))
  pub online : Option (Map ℤ (List String))
  pub context_error : Bool

unfoldable pub is_interrupted : Sent → Bool
is_interrupted s = elim s [ interrupted ↦ true | _ ↦ false ]

abbrev pub body_or_none {ℓ} : {A : Type ℓ} → List A → Option (List A)
body_or_none [] = none
body_or_none (x ∷ xs) = some (x ∷ xs)

abbrev pub traffic_body : List UserTraffic → Option (Map ℤ (ℤ × ℤ))
traffic_body [] = none
traffic_body (t ∷ ts) = some (report_body (t ∷ ts))

-- The devices, once the traffic has been sent.
unfoldable pub report_online :
    Sent → List UserTraffic → Option (Map ℤ (ℤ × ℤ)) → Reporter → Reported
unfolding nocount_uid countable online_body is_interrupted
report_online online_sent traffic body r =
    let (l, devices) = get_online_device r.limiter in
    let grouped =
      body_or_none (online_body (countable (nocount_uid r.device_min traffic) devices)) in
    record {
      reporter = record r { limiter = l };
      traffic = body;
      online = grouped;
      context_error = elim grouped [ none ↦ false | some _ ↦ is_interrupted online_sent ];
    }

unfoldable pub report_user_traffic_task : Sent → Sent → Reporter → Reported
unfolding report_online
report_user_traffic_task traffic_sent online_sent r =
    let (counter, traffic) = get_user_traffic_slice r.tag r.report_min r.uid_map r.counter in
    let r' = record r { counter = counter } in
    elim (traffic_body traffic) [
      | none ↦ report_online online_sent traffic none r'
      | some body ↦
          if is_interrupted traffic_sent
          then record { reporter = r'; traffic = some body; online = none; context_error = true }
          else report_online online_sent traffic (some body) r'
    ]
