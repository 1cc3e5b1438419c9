-- ===== src/Limiter/Tests.antt =====
-- limiter/limiter.go on concrete inputs: the theorems at states that meet their hypotheses.
use zicnode.Prelude.{
  true, false, not, ◌&&◌, ◌||◌, String, ◌≡◌, ◌≢◌, refl, ◌↔◌, some, List, [], ◌∷◌, ℤ, pos, ◌<ℤ◌,
  arith, load, store, delete, trim_prefix, each, string_key, nat_key, int_key, ◌==◌, wrap64, mul64,
  quot_ℕ, ◌*ℤ◌,
}
use zicnode.Format.{user_tag}
use zicnode.Panel.User.{UserInfo}
use zicnode.Rate.{bucket_of, get}
use zicnode.Limiter.Speed.{determine_speed_limit, byte_rate}
use zicnode.Limiter.State.{Limiter, UserLimitInfo, unknown_user}
use zicnode.Limiter.Check.{check_limit, tracks, user_limit}
use zicnode.Limiter.Check.Decision.{IsRefused, is_online, check_limit-reject_iff}
use zicnode.Limiter.Check.Effects.{check_limit-online}
use zicnode.Limiter.Check.Bucket.{Gives, effective_limit, check_limit-bucket}
use zicnode.Limiter.Users.{limit_info_of, update_user, update_dynamic_speed_limit}
use zicnode.Limiter.Users.Lookup.{info_of, adds, modifies, deletes, info_of-update_user}
use zicnode.Limiter.Online.{get_online_device}
use zicnode.Limiter.Online.Report.{all_devices, get_online_device-report}
use zicnode.Limiter.Online.Grace.{seen, grace}
use zicnode.Limiter.Registry.{new_limiter}
use zicnode.Limiter.Buckets.{IsValid}
use zicnode.Limiter.Kept.{Call, checks, updates, sweeps, step, run-IsValid}
use zicnode.Limiter.Dynamic.{expired_lockout, dynamic_limit-stale}

-- One device is allowed, and the panel counts one.
abbrev alice : UserInfo
alice = record { id = pos 7; uuid = "a"; speed_limit = pos 8; device_limit = pos 1 }

abbrev bob : UserInfo
bob = record { id = pos 9; uuid = "b"; speed_limit = pos 0; device_limit = pos 0 }

abbrev start : Limiter
start = new_limiter "vless" "n" (alice ∷ bob ∷ []) ((pos 7, pos 1) ∷ [])

abbrev alice_info : UserLimitInfo
alice_info = limit_info_of alice

abbrev ip : String
ip = "::ffff:1.2.3.4"

alice_known : load "n|a" start.user_limit_info ≡ some alice_info
unfolding new_limiter limit_info_of load store each user_tag
alice_known = refl

check_limit-reject_iff_example :
    ((check_limit (pos 5) "n|a" ip true start).1.reject ≡ true)
    ↔ IsRefused "n|a" (trim_prefix ip "::ffff:") true (load "n|a" start.user_limit_info) start
check_limit-reject_iff_example = check_limit-reject_iff (pos 5) "n|a" ip true start

abbrev key : String
key = "n|a"

abbrev address : String
address = "1.2.3.4"

check_limit-online_example : is_online key address (check_limit (pos 5) key ip true start).0 ≡ (
    (key == key
      && trim_prefix ip "::ffff:" == address
      && tracks start true
      && not (check_limit (pos 5) key ip true start).1.reject)
    || is_online key address start)
check_limit-online_example = check_limit-online (pos 5) key ip key address true start

-- A connection over UDP of a protocol that is not counted.
alice_let_in : (check_limit (pos 5) "n|a" ip false start).1.reject ≡ false
unfolding check_limit new_limiter limit_info_of load store delete each trim_prefix user_tag
alice_let_in = refl

check_limit-bucket_example :
    Gives "n|a"
      (effective_limit (pos 5) alice_info start)
      start
      (check_limit (pos 5) "n|a" ip false start).0
      (check_limit (pos 5) "n|a" ip false start).1.bucket
check_limit-bucket_example =
    check_limit-bucket (pos 5) "n|a" ip false alice_info start alice_known alice_let_in

abbrev history : List Call
history =
    checks (pos 5) "n|a" ip false
    ∷ updates "n" [] (bob ∷ []) (record alice { speed_limit = pos 16 } ∷ [])
    ∷ sweeps
    ∷ []

run-IsValid_example :
    IsValid (each step history (new_limiter "vless" "n" (alice ∷ bob ∷ []) ((pos 7, pos 1) ∷ [])))
run-IsValid_example = run-IsValid "vless" "n" (alice ∷ bob ∷ []) ((pos 7, pos 1) ∷ []) history

info_of-update_user_example :
    info_of "n" "b" (update_user "n" [] (bob ∷ []) (alice ∷ []) start)
    ≡ each
        (adds "b")
        []
        (each (modifies "b") (alice ∷ []) (each (deletes "b") (bob ∷ []) (info_of "n" "b" start)))
info_of-update_user_example = info_of-update_user "n" "b" [] (bob ∷ []) (alice ∷ []) start

-- Alice's address was online, and was just reported.
abbrev seen_alice : Limiter
seen_alice = record start { user_online_ip = ("n|a", ("1.2.3.4", pos 7) ∷ []) ∷ [] }

seen_address : seen (trim_prefix ip "::ffff:") seen_alice.user_online_ip ≡ true
unfolding load trim_prefix
seen_address = refl

grace_example :
    (check_limit (pos 5) "n|a" ip true (get_online_device seen_alice).0).1.reject ≡ false
grace_example = grace (pos 5) "n|a" ip true alice_info seen_alice alice_known seen_address

get_online_device-report_example :
    (get_online_device seen_alice).1 ≡ all_devices seen_alice.user_online_ip
get_online_device-report_example = get_online_device-report seen_alice

-- Bob has no permanent limit; his dynamic one ran out at time 3.
abbrev bob_info : UserLimitInfo
bob_info = record (limit_info_of bob) { dynamic_speed_limit = pos 4; expire_time = pos 3 }

abbrev bob_expired : Limiter
bob_expired = record start { user_limit_info = ("n|b", bob_info) ∷ [] }

bob_known : load "n|b" bob_expired.user_limit_info ≡ some bob_info
unfolding load
bob_known = refl

bob_unlimited : bob_info.speed_limit ≡ pos 0
unfolding limit_info_of
bob_unlimited = refl

three-ne-zero : ◌≢◌ {A = ℤ} (pos 3) (pos 0)
three-ne-zero e = ground arith

expired_lockout_example :
    let answer =
      (check_limit (pos 6) "n|b" ip false (check_limit (pos 5) "n|b" ip true bob_expired).0).1 in
    (answer.reject ≡ true) × (answer.info.reason ≡ unknown_user)
expired_lockout_example =
    expired_lockout (pos 5) (pos 6) "n|b" ip ip true false bob_info bob_expired bob_known
      (omega arith) three-ne-zero bob_unlimited

-- Alice has a bucket of 1000000 bytes a second; a dynamic limit of 1 is set.
abbrev alice_throttled : Limiter
alice_throttled = record start {
  speed_limiter = ("n|a", 0) ∷ [];
  buckets = record { next = 1; cells = (0, bucket_of (pos 1000000)) ∷ [] };
}

abbrev alice_slow_info : UserLimitInfo
alice_slow_info = record alice_info { dynamic_speed_limit = pos 1; expire_time = pos 100 }

abbrev alice_slow : Limiter
alice_slow = record alice_throttled {
  user_limit_info = store "n|a" alice_slow_info start.user_limit_info;
}

has_bucket : load (user_tag "n" "a") alice_throttled.speed_limiter ≡ some 0
unfolding load user_tag
has_bucket = refl

limit_set : update_dynamic_speed_limit "n" "a" (pos 1) (pos 100) alice_throttled ≡ some alice_slow
unfolding update_dynamic_speed_limit load user_tag new_limiter store each limit_info_of
limit_set = refl

slow_known : load (user_tag "n" "a") alice_slow.user_limit_info ≡ some alice_slow_info
unfolding load store user_tag new_limiter each limit_info_of
slow_known = refl

slow_positive : pos 0 <ℤ effective_limit (pos 5) alice_slow_info alice_slow
unfolding byte_rate determine_speed_limit user_limit new_limiter each mul64 wrap64 quot_ℕ ◌*ℤ◌
    limit_info_of
slow_positive = omega arith

slow_let_in : (check_limit (pos 5) (user_tag "n" "a") ip false alice_slow).1.reject ≡ false
unfolding check_limit new_limiter limit_info_of load store delete each trim_prefix user_tag
slow_let_in = refl

dynamic_limit-stale_example :
    let r = check_limit (pos 5) (user_tag "n" "a") ip false alice_slow in
    (r.1.bucket ≡ some 0) × (get 0 r.0.buckets ≡ get 0 alice_throttled.buckets)
dynamic_limit-stale_example =
    dynamic_limit-stale (pos 5) "n" "a" ip false (pos 1) (pos 100) alice_slow_info 0 alice_throttled
      alice_slow has_bucket limit_set slow_known slow_positive slow_let_in
