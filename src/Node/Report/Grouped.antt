-- ===== src/Node/Report/Grouped.antt =====
-- node/user.go, `reportUserTrafficTask`: what the panel is told.
use zicnode.Prelude.{
  Bool, true, false, ◌&&◌, String, ◌≡◌, refl, sym, ap, ◌∙◌, inl, inr, Option-cases, Option, none,
  some, is_some, List, [], ◌∷◌, ◌++◌, ℤ, pos, add64, mul64, ltb_ℤ, Map, load, each, string_key,
  int_key, int_beq_iff, arith, load-store, ◌==◌, if◌then◌else◌,
}
use mathlib.Core.List.{append-nil, append_assoc}
use zicnode.Panel.User.{OnlineUser, UserTraffic}
use zicnode.Limiter.Online.{get_online_device}
use zicnode.Core.Traffic.{get_user_traffic_slice}
use zicnode.Node.Report.{
  Sent, Reporter, nocount_uid, countable, add_online, online_body, is_interrupted, body_or_none,
  traffic_body, report_online, report_user_traffic_task,
}

-- Some row of the user is below the minimum.
abbrev pub too_small : ℤ → ℤ → List UserTraffic → Bool
too_small device_min uid [] = false
too_small device_min uid (t ∷ ts) =
    let rest = too_small device_min uid ts in
    if t.uid == uid && ltb_ℤ (add64 t.upload t.download) (mul64 device_min (pos 1000))
    then true
    else rest

-- The addresses of a user, in order.
abbrev pub ips_of : ℤ → List OnlineUser → List String
ips_of uid [] = []
ips_of uid (o ∷ os) = let rest = ips_of uid os in if o.uid == uid then o.ip ∷ rest else rest

nocount-too_small :
    (device_min uid : ℤ) (ts : List UserTraffic)
    → is_some (load uid (nocount_uid device_min ts)) ≡ too_small device_min uid ts
unfolding nocount_uid load
nocount-too_small device_min uid [] = refl
nocount-too_small device_min uid (t ∷ ts) = ground (
  arith,
  int_beq_iff t.uid uid,
  load-store t.uid uid tt (nocount_uid device_min ts),
  nocount-too_small device_min uid ts,
)

abbrev pub append_all {ℓ} : {A : Type ℓ} → Option (List A) → List A → Option (List A)
append_all none [] = none
append_all none (x ∷ xs) = some (x ∷ xs)
append_all (some ys) xs = some (ys ++ xs)

add_online-at :
    (uid : ℤ) (o : OnlineUser) (m : Map ℤ (List String))
    → load uid (add_online o m) ≡ (
        if o.uid == uid
        then some (elim (load uid m) [ none ↦ o.ip ∷ [] | some ips ↦ ips ++ o.ip ∷ [] ])
        else load uid m)
unfolding add_online
add_online-at uid o m = elim (Option-cases (load o.uid m)) [
  | inl e ↦
      rw (e, add_online) ground
        (arith, e, int_beq_iff o.uid uid, load-store o.uid uid (o.ip ∷ []) m)
  | inr (ips, e) ↦
      rw (e, add_online) ground
        (arith, e, int_beq_iff o.uid uid, load-store o.uid uid (ips ++ o.ip ∷ []) m)
]

append_all_one {ℓ} :
    {A : Type ℓ} (o : Option (List A)) (x : A) (xs : List A)
    → append_all (some (elim o [ none ↦ x ∷ [] | some ys ↦ ys ++ x ∷ [] ])) xs
      ≡ append_all o (x ∷ xs)
append_all_one none x xs = refl
append_all_one (some ys) x xs = ap some (append_assoc ys (x ∷ []) xs)

append_all_none {ℓ} : {A : Type ℓ} (o : Option (List A)) → append_all o [] ≡ o
append_all_none none = refl
append_all_none (some ys) = ap some (append-nil ys)

each-online :
    (uid : ℤ) (os : List OnlineUser) (m : Map ℤ (List String))
    → load uid (each add_online os m) ≡ append_all (load uid m) (ips_of uid os)
unfolding each
each-online uid [] m = sym (append_all_none (load uid m))
each-online uid (o ∷ os) m = ground (
  arith,
  each-online uid os (add_online o m),
  add_online-at uid o m,
  append_all_one (load uid m) o.ip (ips_of uid os),
)

ips_of-countable :
    (uid : ℤ) (nocount : Map {0, 0} ℤ Unit) (os : List OnlineUser)
    → ips_of uid (countable nocount os) ≡ (if is_some (load uid nocount) then [] else ips_of uid os)
unfolding countable
ips_of-countable uid nocount [] = ground arith
ips_of-countable uid nocount (o ∷ os) =
    ground (arith, int_beq_iff o.uid uid, ips_of-countable uid nocount os)

abbrev pub ips_sent : ℤ → Option (Map ℤ (List String)) → Option (List String)
ips_sent uid none = none
ips_sent uid (some m) = load uid m

ips_sent-body : (uid : ℤ) (m : Map ℤ (List String)) → ips_sent uid (body_or_none m) ≡ load uid m
unfolding load
ips_sent-body uid [] = refl
ips_sent-body uid ((k, v) ∷ m) = refl

online_body-at :
    (uid : ℤ) (os : List OnlineUser)
    → ips_sent uid (body_or_none (online_body os)) ≡ append_all none (ips_of uid os)
unfolding online_body load
online_body-at uid os = ips_sent-body uid (each add_online os []) ∙ each-online uid os []

none_if {ℓ} :
    {A : Type ℓ} (b : Bool) (xs : List A)
    → append_all none (if b then [] else xs) ≡ (if b then none else append_all none xs)
none_if true xs = refl
none_if false xs = refl

report_online-at :
    (online_sent : Sent) (traffic : List UserTraffic) (body : Option (Map ℤ (ℤ × ℤ))) (r : Reporter)
    (uid : ℤ)
    → ips_sent uid (report_online online_sent traffic body r).online ≡ (
        if too_small r.device_min uid traffic
        then none
        else append_all none (ips_of uid (get_online_device r.limiter).1))
unfolding report_online
report_online-at online_sent traffic body r uid =
    let devices = (get_online_device r.limiter).1 in
    let nocount = nocount_uid r.device_min traffic in
    online_body-at uid (countable nocount devices)
    ∙ ap (append_all none) (ips_of-countable uid nocount devices)
    ∙ none_if (is_some (load uid nocount)) (ips_of uid devices)
    ∙ rw (nocount-too_small r.device_min uid traffic) refl

-- The devices in a report of the online users: for each uid with a device online and no reported
-- traffic below the minimum, all its addresses; for every other uid nothing. A traffic report that
-- is interrupted ends the task before.
pub report_user_traffic_task-online :
    (traffic_sent online_sent : Sent) (r : Reporter) (uid : ℤ)
    → is_interrupted traffic_sent ≡ false
    → ips_sent uid (report_user_traffic_task traffic_sent online_sent r).online ≡ (
        if too_small r.device_min uid
          (get_user_traffic_slice r.tag r.report_min r.uid_map r.counter).1
        then none
        else append_all none (ips_of uid (get_online_device r.limiter).1))
unfolding report_user_traffic_task
report_user_traffic_task-online traffic_sent online_sent r uid h =
    let slice = get_user_traffic_slice r.tag r.report_min r.uid_map r.counter in
    elim (Option-cases (traffic_body slice.1)) [
      | inl e ↦
          rw (e, report_user_traffic_task)
            (report_online-at online_sent slice.1 none (record r { counter = slice.0 }) uid)
      | inr (body, e) ↦
          rw (e, report_user_traffic_task, h)
            (report_online-at online_sent slice.1 (some body) (record r { counter = slice.0 }) uid)
    ]

-- What a report leaves of the reporter, whether the panel accepts the traffic or not.
pub report_user_traffic_task-left :
    (traffic_sent online_sent : Sent) (r : Reporter)
    → let slice = get_user_traffic_slice r.tag r.report_min r.uid_map r.counter in
      let done = report_user_traffic_task traffic_sent online_sent r in
      (done.reporter.counter ≡ slice.0)
      × (done.traffic ≡ traffic_body slice.1)
      × (done.reporter.tag ≡ r.tag)
      × (done.reporter.report_min ≡ r.report_min)
      × (done.reporter.uid_map ≡ r.uid_map)
unfolding report_user_traffic_task report_online
report_user_traffic_task-left traffic_sent online_sent r = ground arith
