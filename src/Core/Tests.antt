-- ===== src/Core/Tests.antt =====
-- core and common/counter on concrete inputs.
use zicnode.Prelude.{
  ◌&&◌, String, ◌≡◌, refl, some, is_some, List, [], ◌∷◌, ℤ, pos, Map, load, each, string_key,
  if◌then◌else◌,
}
use zicnode.Counter.{TrafficCounter, zero_storage, new_traffic_counter}
use zicnode.Counter.Counts.{
  Call, resets, receives, sends, step, spec, counts, run-counts, run-IsValid,
}
use zicnode.Core.Traffic.{passes, get_user_traffic_slice}
use zicnode.Core.Traffic.Exact.{report, get_user_traffic_slice-exact}

abbrev calls : List Call
calls =
    sends "n|a" (pos 300) ∷ receives "n|b" (pos 20) ∷ receives "n|a" (pos 4000) ∷ resets "n|b" ∷ []

run-counts_example :
    counts "n|a" (each step calls new_traffic_counter)
    ≡ each (λ k s. spec k "n|a" s) calls zero_storage
run-counts_example = run-counts calls "n|a"

abbrev counter : TrafficCounter
counter = each step calls new_traffic_counter

abbrev uids : Map String ℤ
uids = ("n|a", pos 7) ∷ []

abbrev tag : String
tag = "n"

counter_there : load tag ((tag, counter) ∷ []) ≡ some counter
unfolding load
counter_there = refl

get_user_traffic_slice-exact_example :
    let r = get_user_traffic_slice tag (pos 1) uids ((tag, counter) ∷ []) in
    (c' : TrafficCounter) × (load tag r.0 ≡ some c')
    × (r.1 ≡ report (pos 1) uids (λ u. counts u counter) counter.table)
    × ((v : String)
        → counts v c' ≡ (
            if is_some (load v counter.table) && passes (pos 1) (counts v counter)
            then zero_storage
            else counts v counter))
get_user_traffic_slice-exact_example =
    get_user_traffic_slice-exact tag (pos 1) uids ((tag, counter) ∷ []) counter counter_there
      (run-IsValid calls)
