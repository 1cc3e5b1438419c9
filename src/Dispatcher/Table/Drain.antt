-- ===== src/Dispatcher/Table/Drain.antt =====
-- core/app/dispatcher/default.go, `CloseAllManagedLinks`: no link is forgotten, none is ended
-- twice.
use zicnode.Prelude.{
  ℕ, String, ◌≡◌, ◌≢◌, refl, none, some, List, [], ◌∷◌, ◌++◌, Map, load, store, delete, Distinct,
  string_key, nat_key, nat_beq_iff, str_iff, arith, load-store, delete_absent,
}
use zicnode.Dispatcher.Log.{Fields}
use zicnode.Dispatcher.Link.{
  Links, LinkManager, Managers, LinkEvent, empty_manager, count, clone_log_fields,
}
use zicnode.Dispatcher.Link.Closing.{Owned, endings, close_all-exact}
use zicnode.Dispatcher.Table.{
  DefaultDispatcher, count_links, active_link_count, Drained, drain, user_fields,
  close_all_managed_links,
}

-- The entry of no user is this address.
abbrev pub Absent : ℕ → Map String ℕ → Type 0
Absent a [] = Unit
Absent a ((user, b) ∷ table) = (a ≢ b) × Absent a table

-- Every entry of the table is a manager of its own, whose writers know it.
abbrev pub AllOwned : Managers → Map String ℕ → Type 0
AllOwned h [] = Unit
AllOwned h ((user, a) ∷ table) =
    ((m : LinkManager) × (load a h ≡ some m) × Owned a m.links) × Absent a table × AllOwned h table

pub record IsValid (d : DefaultDispatcher) : Type 0 where
  pub distinct : Distinct d.link_managers
  pub owned : AllOwned d.managers d.link_managers

abbrev pub links_at : ℕ → Managers → Links
links_at a h = elim (load a h) [ none ↦ [] | some m ↦ m.links ]

-- The ends of all links, manager by manager.
abbrev pub all_endings : Map String ℕ → Managers → List LinkEvent
all_endings [] h = []
all_endings ((user, a) ∷ table) h = endings (links_at a h) ++ all_endings table h

module _ (a : ℕ) (m : LinkManager) (h : Managers) where
  pub AllOwned-store :
      (table : Map String ℕ) → Absent a table → AllOwned h table → AllOwned (store a m h) table
  AllOwned-store [] n o = tt
  AllOwned-store ((user, b) ∷ table) n o =
      ground (arith, load-store a b m h, nat_beq_iff a b, AllOwned-store table n.1 o.2)

  pub count_links-store :
      (table : Map String ℕ)
      → Absent a table
      → count_links table (store a m h) ≡ count_links table h
  unfolding count_links count
  count_links-store [] n = refl
  count_links-store ((user, b) ∷ table) n =
      ground (arith, load-store a b m h, nat_beq_iff a b, count_links-store table n.1)

  all_endings-store :
      (table : Map String ℕ)
      → Absent a table
      → all_endings table (store a m h) ≡ all_endings table h
  all_endings-store [] n = refl
  all_endings-store ((user, b) ∷ table) n =
      ground (arith, load-store a b m h, nat_beq_iff a b, all_endings-store table n.1)

record DrainsTo (d : DefaultDispatcher) (table : Map String ℕ) (r : Drained) : Type 0 where
  empties : r.dispatcher.link_managers ≡ []
  ends : r.events ≡ all_endings table d.managers
  counts : r.total ≡ count_links table d.managers

drain-DrainsTo :
    (reason : String) (fields : Fields) (table : Map String ℕ) (d : DefaultDispatcher)
    → d.link_managers ≡ table
    → Distinct table
    → AllOwned d.managers table
    → DrainsTo d table (drain reason fields table d)
unfolding drain count_links count delete
drain-DrainsTo reason fields [] d e u o = ground arith
drain-DrainsTo reason fields ((user, a) ∷ table) d e u o =
    let (m, l, own) = o.0 in
    let left : DefaultDispatcher = record d {
      managers = store a empty_manager d.managers;
      link_managers = delete user d.link_managers;
    } in
    let rest = drain-DrainsTo reason fields table left in
    rw (close_all-exact a reason (user_fields user (clone_log_fields fields)) d.managers m l own)
      ground
      (
        arith,
        rest,
        str_iff user user,
        delete_absent user table u.0,
        AllOwned-store a empty_manager d.managers table o.1,
        count_links-store a empty_manager d.managers table o.1,
        all_endings-store a empty_manager d.managers table o.1,
      )

-- Where every entry of the table is a manager of its own whose writers know it: the number returned
-- is that of the active links, each link of each manager is closed and interrupted once, and no
-- active link is left.
pub close_all_managed_links-exact :
    (reason : String) (fields : Fields) (d : DefaultDispatcher)
    → IsValid d
    → let r = close_all_managed_links reason fields d in
      (r.total ≡ active_link_count d)
      × (r.events ≡ all_endings d.link_managers d.managers)
      × (active_link_count r.dispatcher ≡ 0)
unfolding close_all_managed_links active_link_count count_links
close_all_managed_links-exact reason fields d v =
    ground (arith, drain-DrainsTo reason fields d.link_managers d refl v.distinct v.owned)
