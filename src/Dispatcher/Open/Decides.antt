-- ===== src/Dispatcher/Open/Decides.antt =====
-- core/app/dispatcher/default.go, `getLink` and `DispatchLink`: who is let in, on every branch.
use zicnode.Prelude.{
  ℕ, suc, Bool, true, false, not, ◌&&◌, ◌||◌, String, ◌≡◌, refl, Option, none, some, inl, inr, ◌⊎◌,
  List, [], ◌∷◌, ℤ, load, string_key, nat_key, arith, ◌==◌, if◌then◌else◌, Bool-cases,
}
use zicnode.Rate.{DynamicBucket}
use zicnode.Limiter.Check.{check_limit}
use zicnode.Limiter.Registry.{Limiters, get_limiter}
use zicnode.Dispatcher.Log.{Fields}
use zicnode.Dispatcher.Link.{source, LinkEvent, closes, interrupts}
use zicnode.Dispatcher.Table.{DefaultDispatcher, active_link_count}
use zicnode.Dispatcher.Open.{
  Refusal, Inbound, Pipes, Opened, World, Access, ask_limiter, access_of, denied, granted, get_link,
  open_link, Linked, opened, refused, linked, dropped, give_up,
}
use zicnode.Dispatcher.Open.Valid.{IsAllocated}
use zicnode.Dispatcher.Open.Adds.{attach-Adds, attach_link-Adds}

-- The node has a limiter and it does not reject the connection.
abbrev pub lets_in : ℤ → Inbound → Limiters → Bool
lets_in now inbound t = elim (get_limiter inbound.tag t) [
  | none ↦ false
  | some a ↦ elim (load a t.heap) [
    | none ↦ false
    | some l ↦ not (check_limit now inbound.email inbound.ip inbound.is_tcp l).1.reject
  ]
]

abbrev is_granted : Access → Bool
is_granted (denied why fields) = false
is_granted (granted bucket) = true

Access-cases :
    (x : Access)
    → ((why : Refusal) × (fields : Fields) × (x ≡ denied why fields))
      ⊎ ((bucket : Option DynamicBucket) × (x ≡ granted bucket))
Access-cases (denied why fields) = inl (why, fields, refl)
Access-cases (granted bucket) = inr (bucket, refl)

ask_limiter-lets_in :
    (now : ℤ) (destination : Option String) (inbound : Inbound) (t : Limiters)
    → is_granted (ask_limiter now destination inbound t).1 ≡ lets_in now inbound t
unfolding ask_limiter access_of
ask_limiter-lets_in now destination inbound t = ground arith

-- What a call says of the active links: `n` before, `m` after.
abbrev counted_as : String → Bool → ℕ → ℕ
counted_as email admitted n = if not (email == "") && admitted then suc n else n

abbrev pub endings_of : Opened → List LinkEvent
endings_of (opened inbound first second) = []
endings_of (refused why fields events) = events

abbrev pub dropped_of : Linked → List LinkEvent
dropped_of (linked inbound link) = []
dropped_of (dropped why fields events) = events

-- A connection of a user who is let in adds one active link, and every other connection none; a
-- user who is not let in gets the ends `ends` of the connection closed and interrupted, and only
-- then.
pub record IsDecided (now : ℤ) (inbound : Inbound) (w : World) (ends : List LinkEvent)
    (d : DefaultDispatcher) (ended : List LinkEvent) : Type 0 where
  pub allocated : IsAllocated d
  pub active :
      active_link_count d
      ≡ counted_as inbound.email (lets_in now inbound w.limiters) (active_link_count w.dispatcher)
  pub ending : ended ≡ (if inbound.email == "" || lets_in now inbound w.limiters then [] else ends)

-- With allocated tables: a connection of a user whom the node's limiter lets in adds one active
-- link, and every other connection none; a user who is not let in gets all four ends of the two
-- pipes closed or interrupted, and nobody else does; the tables stay allocated.
pub get_link-IsDecided :
    (now : ℤ) (destination : Option String) (p : Pipes) (inbound : Inbound) (w : World)
    → IsAllocated w.dispatcher
    → let r = get_link now destination p inbound w in
      IsDecided now inbound w (give_up p) r.0.dispatcher (endings_of r.1)
unfolding get_link
get_link-IsDecided now destination p inbound w v = elim (Bool-cases (inbound.email == "")) [
  | inl e ↦ rw (e, get_link) ground (arith, e, v)
  | inr e ↦ elim (Access-cases (ask_limiter now destination inbound w.limiters).1) [
    | inl (why, fields, a) ↦
        let same = ask_limiter-lets_in now destination inbound w.limiters in
        rw (e, a, get_link) ground (arith, same, a, e, v)
    | inr (bucket, a) ↦
        let same = ask_limiter-lets_in now destination inbound w.limiters in
        let added = attach-Adds inbound p bucket w.dispatcher v in
        rw (e, a, get_link) ground (arith, same, a, e, added)
  ]
]

-- With allocated tables: a link of a user whom the node's limiter lets in adds one active link, and
-- every other link none; a user who is not let in gets the writer closed and the reader
-- interrupted, and nobody else does; the tables stay allocated.
pub open_link-IsDecided :
    (now : ℤ) (destination : Option String) (writer reader : ℕ) (inbound : Inbound) (w : World)
    → IsAllocated w.dispatcher
    → let r = open_link now destination writer reader inbound w in
      IsDecided now inbound w
        (closes writer ∷ interrupts (source reader) ∷ [])
        r.0.dispatcher
        (dropped_of r.1)
unfolding open_link
open_link-IsDecided now destination writer reader inbound w v =
    elim (Bool-cases (inbound.email == "")) [
      | inl e ↦ rw (e, open_link) ground (arith, e, v)
      | inr e ↦ elim (Access-cases (ask_limiter now destination inbound w.limiters).1) [
        | inl (why, fields, a) ↦
            let same = ask_limiter-lets_in now destination inbound w.limiters in
            rw (e, a, open_link) ground (arith, same, a, e, v)
        | inr (bucket, a) ↦
            let same = ask_limiter-lets_in now destination inbound w.limiters in
            let added = attach_link-Adds inbound writer reader bucket w.dispatcher v in
            rw (e, a, open_link) ground (arith, same, a, e, added)
      ]
    ]
