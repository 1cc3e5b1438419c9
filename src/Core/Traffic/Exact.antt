-- ===== src/Core/Traffic/Exact.antt =====
-- core/user.go, `GetUserTrafficSlice`: what is reported and what stays on the counters.
use mathlib.Core.List.{append_assoc, append-nil}
use zicnode.Prelude.{
  ℕ, true, not, ◌&&◌, String, ◌≡◌, refl, sym, ◌∙◌, none, some, is_some, List, [], ◌∷◌, ◌++◌, ℤ, pos,
  Map, load, string_key, int_key, nat_key, arith, str_iff, load-store, load-delete, if◌then◌else◌,
  ◌==◌, Distinct, same_refl,
}
use zicnode.Panel.User.{UserTraffic}
use zicnode.Counter.{
  TrafficStorage, zero_storage, TrafficCounter, storage, get_up_count, get_down_count, write,
  delete_counter,
}
use zicnode.Counter.Counts.{IsValid, counts, counts-write, storage-counts, delete_counter-IsValid}
use zicnode.Core.Traffic.{uid_of, passes, visit, visit_all, get_user_traffic_slice}

-- The entries that are left to visit are in the map.
abbrev Within : Map String ℕ → TrafficCounter → Type 0
Within rest c = (u : String) (a : ℕ) → load u rest ≡ some a → load u c.table ≡ some a

-- Deleting an entry makes its counts zero.
counts-delete_counter :
    (c : TrafficCounter) (u v : String)
    → counts v (delete_counter u c) ≡ (if u == v then zero_storage else counts v c)
unfolding delete_counter get_up_count get_down_count storage
counts-delete_counter c u v = ground (arith, str_iff u v, load-delete u v c.table)

module _ (mintraffic : ℤ) (uids : Map String ℤ) where
  visit-counts :
      (email : String) (a : ℕ) (c : TrafficCounter) (out : List UserTraffic) (v : String)
      → IsValid c
      → load email c.table ≡ some a
      → counts v (visit mintraffic uids (email, a) (c, out)).0
        ≡ (if email == v && passes mintraffic (counts v c) then zero_storage else counts v c)
  unfolding visit
  visit-counts email a c out v h e = ground (
    arith,
    str_iff email v,
    storage-counts c email a e,
    counts-write c h email v a zero_storage e,
    counts-delete_counter (write a zero_storage c) email v,
  )

  pub visit-IsValid :
      (email : String) (a : ℕ) (c : TrafficCounter) (out : List UserTraffic)
      → IsValid c
      → IsValid (visit mintraffic uids (email, a) (c, out)).0
  unfolding visit write
  visit-IsValid email a c out h =
      ground (arith, delete_counter-IsValid (write a zero_storage c) h email)

  visit-Within :
      (email : String) (a : ℕ) (rest : Map String ℕ) (c : TrafficCounter) (out : List UserTraffic)
      → load email rest ≡ none
      → Within ((email, a) ∷ rest) c
      → Within rest (visit mintraffic uids (email, a) (c, out)).0
  unfolding visit write delete_counter load
  visit-Within email a rest c out fresh w u b e =
      ground (arith, str_iff email u, load-delete email u c.table, w u b)

  visit_all-counts :
      (rest : Map String ℕ) (c : TrafficCounter) (out : List UserTraffic) (v : String)
      → IsValid c
      → Distinct rest
      → Within rest c
      → counts v (visit_all mintraffic uids rest (c, out)).0 ≡ (
          if is_some (load v rest) && passes mintraffic (counts v c)
          then zero_storage
          else counts v c)
  unfolding visit_all load
  visit_all-counts [] c out v h d w = refl
  visit_all-counts ((email, a) ∷ rest) c out v h d w =
      let here : load email c.table ≡ some a = w email a (ground (arith, str_iff email email)) in
      let s = visit mintraffic uids (email, a) (c, out) in
      visit_all-counts rest s.0 s.1 v (visit-IsValid email a c out h) d.1
        (visit-Within email a rest c out d.0 w)
      ∙ ground (arith, str_iff email v, visit-counts email a c out v h here, d.0)

  -- The rows of the users who pass the threshold and are known, by the counts `f`.
  abbrev pub report : (String → TrafficStorage) → Map String ℕ → List UserTraffic
  report f [] = []
  report f ((email, a) ∷ rest) =
      let later = report f rest in
      if passes mintraffic (f email) && not (uid_of email uids == pos 0)
      then record {
        uid = uid_of email uids;
        upload = (f email).up_counter;
        download = (f email).down_counter;
      }
        ∷ later
      else later

  report_ext :
      (f g : String → TrafficStorage) (rest : Map String ℕ)
      → ((u : String) → is_some (load u rest) ≡ true → f u ≡ g u)
      → Distinct rest
      → report f rest ≡ report g rest
  unfolding load
  report_ext f g [] h d = refl
  report_ext f g ((email, a) ∷ rest) h d =
      let later = report_ext f g rest (λ u p. h u (ground (arith, str_iff email u))) d.1 in
      ground (arith, later, h email (ground (arith, str_iff email email)))

  visit-out :
      (email : String) (a : ℕ) (c : TrafficCounter) (out : List UserTraffic)
      → load email c.table ≡ some a
      → (visit mintraffic uids (email, a) (c, out)).1
        ≡ out ++ report (λ u. counts u c) ((email, a) ∷ [])
  unfolding visit
  visit-out email a c out e = ground (arith, storage-counts c email a e, append-nil out)

  report-cons :
      (f : String → TrafficStorage) (e : String × ℕ) (rest : Map String ℕ)
      → report f (e ∷ rest) ≡ report f (e ∷ []) ++ report f rest
  report-cons f (email, a) rest = ground arith

  visit_all-report :
      (rest : Map String ℕ) (c : TrafficCounter) (out : List UserTraffic)
      → IsValid c
      → Distinct rest
      → Within rest c
      → (visit_all mintraffic uids rest (c, out)).1 ≡ out ++ report (λ u. counts u c) rest
  unfolding visit_all load
  visit_all-report [] c out h d w = sym (append-nil out)
  visit_all-report ((email, a) ∷ rest) c out h d w =
      let here : load email c.table ≡ some a = w email a (ground (arith, str_iff email email)) in
      let s = visit mintraffic uids (email, a) (c, out) in
      let same : report (λ u. counts u s.0) rest ≡ report (λ u. counts u c) rest =
        report_ext (λ u. counts u s.0) (λ u. counts u c) rest
          (λ u p. ground (arith, str_iff email u, visit-counts email a c out u h here, d.0)) d.1 in
      visit_all-report rest s.0 s.1 (visit-IsValid email a c out h) d.1
        (visit-Within email a rest c out d.0 w)
      ∙ cc (
        same,
        visit-out email a c out here,
        report-cons (λ u. counts u c) (email, a) rest,
        append_assoc out (report (λ u. counts u c) ((email, a) ∷ []))
            (report (λ u. counts u c) rest),
      )

-- The slice has a row for exactly the entries whose sum passes the threshold and whose user is
-- known, with the counts of that moment; the counts of every entry that passes are zero afterwards,
-- known or not, and all other counts are as before.
pub get_user_traffic_slice-exact :
    (tag : String) (mintraffic : ℤ) (uids : Map String ℤ) (counters : Map String TrafficCounter)
    (c : TrafficCounter)
    → load tag counters ≡ some c
    → IsValid c
    → let r = get_user_traffic_slice tag mintraffic uids counters in
      (c' : TrafficCounter) × (load tag r.0 ≡ some c')
      × (r.1 ≡ report mintraffic uids (λ u. counts u c) c.table)
      × ((v : String)
          → counts v c' ≡ (
              if is_some (load v c.table) && passes mintraffic (counts v c)
              then zero_storage
              else counts v c))
unfolding get_user_traffic_slice
get_user_traffic_slice-exact tag mintraffic uids counters c e h =
    rw (e, get_user_traffic_slice)
      (
        s.0,
        load-store tag tag s.0 counters ∙ rw (same_refl tag),
        visit_all-report mintraffic uids c.table c [] h h.distinct (λ u a p. p),
        λ v. visit_all-counts mintraffic uids c.table c [] v h h.distinct (λ u a p. p),
      )
  where
    s : TrafficCounter × List UserTraffic
    s = visit_all mintraffic uids c.table (c, [])
