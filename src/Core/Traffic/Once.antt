-- ===== src/Core/Traffic/Once.antt =====
-- core/user.go, `GetUserTrafficSlice`: what has been reported is not reported again.
use zicnode.Prelude.{
  ℕ, false, ◌&&◌, String, ◌≡◌, refl, ◌∙◌, none, some, is_some, List, [], ◌∷◌, ℤ, pos, mul64, ltb_ℤ,
  Map, load, string_key, int_key, nat_key, arith, load-store, same_refl, if◌then◌else◌,
  Option-cases, inl, inr, ap, subst, add64, wrap64, ◌+ℤ◌, ◌*ℤ◌,
}
use zicnode.Panel.User.{UserTraffic}
use zicnode.Counter.{TrafficStorage, zero_storage, TrafficCounter, get_up_count, get_down_count}
use zicnode.Counter.Counts.{IsValid, counts}
use zicnode.Core.Traffic.{passes, visit, visit_all, get_user_traffic_slice}
use zicnode.Core.Traffic.Exact.{report, visit-IsValid, get_user_traffic_slice-exact}

-- A threshold that no traffic at all does not pass.
abbrev pub IsThreshold : ℤ → Type 0
IsThreshold mintraffic = ltb_ℤ (mul64 mintraffic (pos 1000)) (pos 0) ≡ false

module _ (mintraffic : ℤ) (uids : Map String ℤ) where
  visit_all-IsValid :
      (rest : Map String ℕ) (s : TrafficCounter × List UserTraffic)
      → IsValid s.0
      → IsValid (visit_all mintraffic uids rest s).0
  unfolding visit_all
  visit_all-IsValid [] s h = h
  visit_all-IsValid ((email, a) ∷ rest) (c, out) h =
      visit_all-IsValid rest (visit mintraffic uids (email, a) (c, out))
        (visit-IsValid mintraffic uids email a c out h)

  report_nothing :
      (f : String → TrafficStorage) (rest : Map String ℕ)
      → ((u : String) → passes mintraffic (f u) ≡ false)
      → report mintraffic uids f rest ≡ []
  report_nothing f [] h = refl
  report_nothing f ((email, a) ∷ rest) h = ground (arith, h email, report_nothing f rest h)

passes_zero : (mintraffic : ℤ) → IsThreshold mintraffic → passes mintraffic zero_storage ≡ false
unfolding passes add64 wrap64 mul64 ◌+ℤ◌ ◌*ℤ◌
passes_zero mintraffic h = h

counts_missing :
    (v : String) (c : TrafficCounter) → load v c.table ≡ none → counts v c ≡ zero_storage
unfolding get_up_count get_down_count
counts_missing v c h = ground (arith, h)

left_over :
    (mintraffic : ℤ) (v : String) (c c' : TrafficCounter)
    → IsThreshold mintraffic
    → counts v c' ≡ (
        if is_some (load v c.table) && passes mintraffic (counts v c)
        then zero_storage
        else counts v c)
    → passes mintraffic (counts v c') ≡ false
left_over mintraffic v c c' t h = elim (Option-cases (load v c.table)) [
  | inl e ↦
      ap (passes mintraffic) (h ∙ ground (arith, e, counts_missing v c e))
      ∙ passes_zero mintraffic t
  | inr (a, e) ↦ ground (arith, h, e, passes_zero mintraffic t)
]

slice-IsValid :
    (tag : String) (mintraffic : ℤ) (uids : Map String ℤ) (counters : Map String TrafficCounter)
    (c c' : TrafficCounter)
    → load tag counters ≡ some c
    → IsValid c
    → load tag (get_user_traffic_slice tag mintraffic uids counters).0 ≡ some c'
    → IsValid c'
unfolding get_user_traffic_slice
slice-IsValid tag mintraffic uids counters c c' e h k =
    let s = visit_all mintraffic uids c.table (c, []) in
    let same : s.0 ≡ c' = ground (arith, k, e, load-store tag tag s.0 counters, same_refl tag) in
    subst IsValid same (visit_all-IsValid mintraffic uids c.table (c, []) h)

-- A second slice, without traffic in between, is empty.
pub slice_twice :
    (tag : String) (mintraffic : ℤ) (uids : Map String ℤ) (counters : Map String TrafficCounter)
    (c : TrafficCounter)
    → IsThreshold mintraffic
    → load tag counters ≡ some c
    → IsValid c
    → let r = get_user_traffic_slice tag mintraffic uids counters in
      (get_user_traffic_slice tag mintraffic uids r.0).1 ≡ []
slice_twice tag mintraffic uids counters c t e h =
    let r = get_user_traffic_slice tag mintraffic uids counters in
    let x = get_user_traffic_slice-exact tag mintraffic uids counters c e h in
    let y =
      get_user_traffic_slice-exact tag mintraffic uids r.0 x.0 x.1
        (slice-IsValid tag mintraffic uids counters c x.0 e h x.1) in
    y.2
    ∙ report_nothing mintraffic uids (λ u. counts u x.0) x.0.table
        (λ u. left_over mintraffic u c x.0 t (x.3 u))
