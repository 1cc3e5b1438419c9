-- ===== src/Dispatcher/Open/Adds.antt =====
-- core/app/dispatcher/default.go, `getLink` and `DispatchLink`: the links that are active
-- afterwards.
use zicnode.Prelude.{
  ℕ, suc, String, ◌≡◌, refl, ap, ◌∙◌, Option, some, inl, inr, [], ◌∷◌, Map, load, store, string_key,
  nat_key, str_iff, arith, load-store, store-Distinct, Option-cases,
}
use zicnode.Counter.{TrafficCounter}
use zicnode.Rate.{DynamicBucket}
use zicnode.Dispatcher.Link.{
  LinkManager, ManagedWriter, Reader, source, counted, Managers, count, add_link,
}
use zicnode.Dispatcher.Link.Closing.{Owned}
use zicnode.Dispatcher.Table.{DefaultDispatcher, active_link_count}
use zicnode.Dispatcher.Table.Drain.{AllOwned, links_at}
use zicnode.Dispatcher.Open.{
  manager_of, manage, add_to, storage_of, attach, attach_link, Inbound, Pipes,
}
use zicnode.Dispatcher.Open.Valid.{
  IdsBelow, Below, IsAllocated, Below-suc, store_fresh, store-Owned, store-IdsBelow, grown-AllOwned,
  grown-count, grown-Below, relinked-AllOwned, relinked-count, relinked-Below,
}

AllOwned-load :
    (email : String) (a : ℕ) (h : Managers) (table : Map String ℕ)
    → load email table ≡ some a
    → AllOwned h table
    → (load a h ≡ some (record { links = links_at a h })) × Owned a (links_at a h)
unfolding load
AllOwned-load email a h [] e o = ground arith
AllOwned-load email a h ((user, c) ∷ table) e o =
    let (m, l, own) = o.0 in ground (arith, AllOwned-load email a h table)

Below-load :
    (n : ℕ) (email : String) (a : ℕ) (h : Managers) (table : Map String ℕ)
    → load email table ≡ some a
    → Below n h table
    → IdsBelow n (links_at a h)
unfolding load
Below-load n email a h [] e b = ground arith
Below-load n email a h ((user, c) ∷ table) e b = ground (arith, Below-load n email a h table)

-- What is so once the manager of a user is there.
record HasManager (email : String) (d : DefaultDispatcher) (r : DefaultDispatcher × ℕ)
    : Type 0 where
  there : load email r.0.link_managers ≡ some r.1
  allocated : IsAllocated r.0
  active : active_link_count r.0 ≡ active_link_count d

manager_of-HasManager :
    (email : String) (d : DefaultDispatcher)
    → IsAllocated d
    → HasManager email d (manager_of email d)
unfolding manager_of active_link_count
manager_of-HasManager email d v = elim (Option-cases (load email d.link_managers)) [
  | inl e ↦
      rw (e, manager_of) ground
        (
          arith,
          v,
          v.valid,
          load-store email email d.next d.link_managers,
          str_iff email email,
          store-Distinct email d.next d.link_managers,
          grown-AllOwned email d.next d.managers d.link_managers,
          grown-Below email d.next d.managers d.link_managers,
          grown-count email d.next d.managers d.link_managers,
        )
  | inr (a, e) ↦ rw (e, manager_of) ground (arith, e, v)
]

-- One link more, and it belongs to a manager of the table.
pub record Adds (d r : DefaultDispatcher) : Type 0 where
  pub allocated : IsAllocated r
  pub active : active_link_count r ≡ suc (active_link_count d)

add_to-Adds :
    (email : String) (a : ℕ) (w : ManagedWriter) (r : Reader) (d : DefaultDispatcher)
    → load email d.link_managers ≡ some a
    → w.manager ≡ a
    → w.id ≡ d.next
    → IsAllocated d
    → Adds d (add_to w r (record d { next = suc d.next }))
unfolding add_link active_link_count count
add_to-Adds email a w r d e k i v =
    let (l, own) = AllOwned-load email a d.managers d.link_managers e v.valid.owned in
    let low = Below-load d.next email a d.managers d.link_managers e v.below in
    let ls = links_at a d.managers in
    let m : LinkManager = record { links = store w.id (w, r) ls } in
    ground (
      arith,
      l,
      v,
      v.valid,
      store_fresh w.id (w, r) ls,
      store-Owned a w r ls,
      store-IdsBelow w.id (w, r) ls,
      relinked-AllOwned email a m d.managers d.link_managers,
      relinked-count email a m d.managers d.link_managers,
      relinked-Below email a m d.managers (suc d.next) d.link_managers,
      Below-suc d.next d.managers d.link_managers,
    )

-- A managed writer for a user, and then its link.
manage-Adds :
    (email : String) (writer : ℕ) (r : Reader) (d : DefaultDispatcher)
    → IsAllocated d
    → Adds d (add_to (manage email writer d).1 r (manage email writer d).0)
unfolding manage
manage-Adds email writer r d v =
    let (d', a) = manager_of email d in
    let m = manager_of-HasManager email d v in
    let w : ManagedWriter = record { id = d'.next; writer = writer; manager = a } in
    let added = add_to-Adds email a w r d' m.there refl refl m.allocated in
    record { allocated = added.allocated; active = added.active ∙ ap suc m.active }

-- The counters are in a table of their own.
counter-Adds :
    (c : Map String TrafficCounter) (d r : DefaultDispatcher)
    → Adds d r
    → Adds d (record r { counter = c })
unfolding active_link_count
counter-Adds c d r v = record {
  allocated = record {
    valid = record { distinct = v.allocated.valid.distinct; owned = v.allocated.valid.owned };
    below = v.allocated.below;
  };
  active = v.active;
}

pub attach-Adds :
    (inbound : Inbound) (p : Pipes) (bucket : Option DynamicBucket) (d : DefaultDispatcher)
    → IsAllocated d
    → Adds d (attach inbound p bucket d).0
unfolding attach storage_of
attach-Adds inbound p bucket d v =
    counter-Adds _ d _ (manage-Adds inbound.email p.uplink_writer (source p.uplink_reader) d v)

pub attach_link-Adds :
    (inbound : Inbound) (writer reader : ℕ) (bucket : Option DynamicBucket) (d : DefaultDispatcher)
    → IsAllocated d
    → Adds d (attach_link inbound writer reader bucket d).0
unfolding attach_link storage_of manage
attach_link-Adds inbound writer reader bucket d v =
    let a = (storage_of inbound.tag inbound.email (manage inbound.email writer d).0).1 in
    let added = manage-Adds inbound.email writer (counted (source reader) a) d v in
    counter-Adds _ d _ added
