-- ===== src/Dispatcher/Open.antt =====
-- core/app/dispatcher/default.go, `getLink` and the same part of `DispatchLink`: what a new
-- connection does to the tables, and the writers and readers it gets. The pipes are made by the
-- proxy engine; `Pipes` has their ends.
pub mod Valid
pub mod Adds
pub mod Decides
use zicnode.Prelude.{
  ℕ, suc, ◌+◌, Bool, true, false, not, String, Option, none, some, List, [], ◌∷◌, ℤ, pos, Map, load,
  store, string_key, nat_key, ◌==◌, if◌then◌else◌,
}
use zicnode.Rate.{DynamicBucket}
use zicnode.Counter.{TrafficCounter, new_traffic_counter, get_counter}
use zicnode.Limiter.State.{Limiter, RejectInfo, allowed}
use zicnode.Limiter.Check.{Answer, check_limit}
use zicnode.Limiter.Registry.{Limiters, get_limiter}
use zicnode.Dispatcher.Log.{Fields, connection_drop_fields, reason_text}
use zicnode.Dispatcher.Link.{
  ManagedWriter, Reader, source, counted, LinkEvent, closes, interrupts, empty_manager, add_link,
}
use zicnode.Dispatcher.Table.{DefaultDispatcher}

-- The wrappers around a writer; a SizeStatWriter has the address of a storage and the counter in
-- it.
pub data Direction : Type 0 where
  up down : Direction

pub data Writer : Type 0 where
  sink : ℕ → Writer
  managed : ManagedWriter → Writer
  rate_limited : Writer → DynamicBucket → Writer
  size_stat : Direction → ℕ → Writer → Writer

pub record Link : Type 0 where
  pub reader : Reader
  pub writer : Writer

-- session.Inbound; the email is empty where there is no user.
pub record Inbound : Type 0 where
  pub tag : String
  pub email : String
  pub ip : String
  pub is_tcp : Bool
  pub can_splice_copy : ℤ

pub record Pipes : Type 0 where
  pub uplink_reader : ℕ
  pub uplink_writer : ℕ
  pub downlink_reader : ℕ
  pub downlink_writer : ℕ

-- What the dispatcher and the limiters are, and what has been done and logged.
pub record World : Type 0 where
  pub limiters : Limiters
  pub dispatcher : DefaultDispatcher

-- limiter.RejectInfo{}; the empty reason is, like `allowed`, not the one that is tested.
abbrev no_reject_info : RejectInfo
no_reject_info = record { reason = allowed; uid = pos 0; device_limit = pos 0; alive_ip = pos 0 }

pub data Refusal : Type 0 where
  limiter_not_found limited : Refusal

-- The limiter's answer to a connection: a refusal with what is logged, or a bucket.
pub data Access : Type 0 where
  denied : Refusal → Fields → Access
  granted : Option DynamicBucket → Access

abbrev missing : Option String → Inbound → Access
missing destination inbound = denied limiter_not_found (
    connection_drop_fields "limiter_not_found" "reject_connection" inbound.tag inbound.email
      inbound.ip destination no_reject_info)

unfoldable pub access_of : Option String → Inbound → Answer → Access
access_of destination inbound answer =
    if answer.reject
    then denied limited (
        connection_drop_fields (reason_text answer.info.reason) "reject_connection" inbound.tag
          inbound.email inbound.ip destination answer.info)
    else granted answer.bucket

-- An address in the table has a limiter in the heap, so the inner `none` does not arise.
unfoldable pub ask_limiter : ℤ → Option String → Inbound → Limiters → Limiters × Access
unfolding access_of
ask_limiter now destination inbound t = elim (get_limiter inbound.tag t) [
  | none ↦ (t, missing destination inbound)
  | some a ↦ elim (load a t.heap) [
    | none ↦ (t, missing destination inbound)
    | some l ↦
        let (l', answer) = check_limit now inbound.email inbound.ip inbound.is_tcp l in
        (record t { heap = store a l' t.heap }, access_of destination inbound answer)
  ]
]

-- The manager of a user, made at the user's first link.
unfoldable pub manager_of : String → DefaultDispatcher → DefaultDispatcher × ℕ
manager_of email d = elim (load email d.link_managers) [
  | some a ↦ (d, a)
  | none ↦ (
    record d {
      link_managers = store email d.next d.link_managers;
      managers = store d.next empty_manager d.managers;
      next = suc d.next;
    },
    d.next,
  )
]

unfoldable pub counter_of : String → DefaultDispatcher → TrafficCounter
counter_of tag d = elim (load tag d.counter) [ none ↦ new_traffic_counter | some c ↦ c ]

-- The storage of a user in the counters of a node, both made where they are missing.
unfoldable pub storage_of : String → String → DefaultDispatcher → DefaultDispatcher × ℕ
unfolding counter_of
storage_of tag email d =
    let (t', a) = get_counter email (counter_of tag d) in
    (record d { counter = store tag t' d.counter }, a)

-- A managed writer around an end, at a new address.
unfoldable pub manage : String → ℕ → DefaultDispatcher → DefaultDispatcher × ManagedWriter
unfolding manager_of
manage email writer d =
    let (d', m) = manager_of email d in
    (record d' { next = suc d'.next }, record { id = d'.next; writer = writer; manager = m })

unfoldable pub limit_rate : Option DynamicBucket → Writer → Writer
limit_rate none w = w
limit_rate (some b) w = rate_limited w b

abbrev pub add_to : ManagedWriter → Reader → DefaultDispatcher → DefaultDispatcher
add_to w r d = record d { managers = add_link w r d.managers }

abbrev pub spliced : Option DynamicBucket → Inbound → Inbound
spliced none inbound = inbound
spliced (some b) inbound = record inbound { can_splice_copy = pos 3 }

pub data Opened : Type 0 where
  opened : Inbound → Link → Link → Opened
  refused : Refusal → Fields → List LinkEvent → Opened

-- After the limiter has let a user in: the inbound link and the outbound link.
unfoldable pub attach :
    Inbound → Pipes → Option DynamicBucket → DefaultDispatcher → DefaultDispatcher × Opened
unfolding manage storage_of limit_rate
attach inbound p bucket d =
    let (d', w) = manage inbound.email p.uplink_writer d in
    let (d'', a) = storage_of inbound.tag inbound.email (add_to w (source p.uplink_reader) d') in
    (
      d'',
      opened (spliced bucket inbound)
          (record {
            reader = source p.downlink_reader;
            writer = size_stat up a (limit_rate bucket (managed w));
          })
          (record {
            reader = source p.uplink_reader;
            writer = size_stat down a (limit_rate bucket (sink p.downlink_writer));
          }),
    )

abbrev pub give_up : Pipes → List LinkEvent
give_up p =
    closes p.downlink_writer
    ∷ closes p.uplink_writer
    ∷ interrupts (source p.uplink_reader)
    ∷ interrupts (source p.downlink_reader)
    ∷ []

-- `inbound` is the session; a connection without a user is neither limited nor counted.
unfoldable pub get_link : ℤ → Option String → Pipes → Inbound → World → World × Opened
unfolding ask_limiter attach
get_link now destination p inbound w =
    if inbound.email == ""
    then (
      w,
      opened inbound (record { reader = source p.downlink_reader; writer = sink p.uplink_writer })
          (record { reader = source p.uplink_reader; writer = sink p.downlink_writer }),
    )
    else let (t, access) = ask_limiter now destination inbound w.limiters in
      elim access [
        | denied why fields ↦ (record w { limiters = t }, refused why fields (give_up p))
        | granted bucket ↦
            let (d, o) = attach inbound p bucket w.dispatcher in
            (record { limiters = t; dispatcher = d }, o)
      ]

-- `DispatchLink` is given the outbound link with its two ends.
unfoldable pub attach_link :
    Inbound
    → ℕ
    → ℕ
    → Option DynamicBucket
    → DefaultDispatcher
    → DefaultDispatcher × (Inbound × Link)
unfolding manage storage_of limit_rate
attach_link inbound writer reader bucket d =
    let (d', w) = manage inbound.email writer d in
    let (d'', a) = storage_of inbound.tag inbound.email d' in
    let counting = counted (source reader) a in
    (
      add_to w counting d'',
      (
        spliced bucket inbound,
        record { reader = counting; writer = size_stat down a (limit_rate bucket (managed w)) },
      ),
    )

pub data Linked : Type 0 where
  linked : Inbound → Link → Linked
  dropped : Refusal → Fields → List LinkEvent → Linked

unfoldable pub open_link : ℤ → Option String → ℕ → ℕ → Inbound → World → World × Linked
unfolding ask_limiter attach_link
open_link now destination writer reader inbound w =
    if inbound.email == ""
    then (w, linked inbound (record { reader = source reader; writer = sink writer }))
    else let (t, access) = ask_limiter now destination inbound w.limiters in
      elim access [
        | denied why fields ↦ (
          record w { limiters = t },
          dropped why fields (closes writer ∷ interrupts (source reader) ∷ []),
        )
        | granted bucket ↦
            let (d, (inbound', link)) = attach_link inbound writer reader bucket w.dispatcher in
            (record { limiters = t; dispatcher = d }, linked inbound' link)
      ]
