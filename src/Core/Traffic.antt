-- ===== src/Core/Traffic.antt =====
-- core/user.go, `GetUserTrafficSlice`: the traffic to report, taken off the counters.
pub mod Exact
pub mod Once
use zicnode.Prelude.{
  ℕ, Bool, true, false, String, Option, none, some, List, [], ◌∷◌, ◌++◌, ℤ, pos, add64, mul64,
  ltb_ℤ, Map, load, store, string_key, int_key, ◌==◌, if◌then◌else◌,
}
use zicnode.Panel.User.{UserTraffic}
use zicnode.Counter.{TrafficStorage, zero_storage, TrafficCounter, storage, write, delete_counter}

-- vc.users.uidMap[email], zero where it is missing
unfoldable pub uid_of : String → Map String ℤ → ℤ
uid_of email uids = elim (load email uids) [ none ↦ pos 0 | some uid ↦ uid ]

-- up+down > int64(mintraffic*1000)
unfoldable pub passes : ℤ → TrafficStorage → Bool
passes mintraffic s = ltb_ℤ (mul64 mintraffic (pos 1000)) (add64 s.up_counter s.down_counter)

-- One round of the `Range`: the counters, and the slice so far.
unfoldable pub visit :
    ℤ
    → Map String ℤ
    → String × ℕ
    → TrafficCounter × List UserTraffic
    → TrafficCounter × List UserTraffic
unfolding uid_of passes
visit mintraffic uids (email, a) (c, out) =
    let s = storage a c in
    let uid = uid_of email uids in
    let zeroed = write a zero_storage c in
    if passes mintraffic s
    then (if uid == pos 0 then (delete_counter email zeroed, out) else (
      zeroed,
      out ++ record { uid = uid; upload = s.up_counter; download = s.down_counter } ∷ [],
    ))
    else (c, out)

-- The entries are those of the map when the `Range` begins.
unfoldable pub visit_all :
    ℤ
    → Map String ℤ
    → Map String ℕ
    → TrafficCounter × List UserTraffic
    → TrafficCounter × List UserTraffic
unfolding visit
visit_all mintraffic uids [] s = s
visit_all mintraffic uids (e ∷ rest) s = visit_all mintraffic uids rest (visit mintraffic uids e s)

-- The counters of the nodes, by tag, and the slice. A node without counters, and an empty slice,
-- give `nil` in the code, here the empty list.
unfoldable pub get_user_traffic_slice :
    String
    → ℤ
    → Map String ℤ
    → Map String TrafficCounter
    → Map String TrafficCounter × List UserTraffic
unfolding visit_all
get_user_traffic_slice tag mintraffic uids counters = elim (load tag counters) [
  | none ↦ (counters, [])
  | some c ↦
      let (c', out) = visit_all mintraffic uids c.table (c, []) in (store tag c' counters, out)
]
