-- ===== src/Dispatcher/Table.antt =====
-- core/app/dispatcher/default.go: the tables of a DefaultDispatcher, and the two operations on all
-- links. `next` is the next address of a manager or a managed writer.
pub mod Drain
pub mod Owned
use zicnode.Prelude.{
  ℕ, ◌+◌, not, String, Option, none, some, List, [], ◌∷◌, ◌++◌, Map, load, store, delete,
  string_key, nat_key, ◌==◌, if◌then◌else◌,
}
use zicnode.Counter.{TrafficCounter}
use zicnode.Dispatcher.Log.{Fields, text}
use zicnode.Dispatcher.Link.{Managers, LinkEvent, count, Closed, close_all, clone_log_fields}

pub record DefaultDispatcher : Type 0 where
  pub counter : Map String TrafficCounter
  pub link_managers : Map String ℕ
  pub managers : Managers
  pub next : ℕ

unfoldable pub count_links : Map String ℕ → Managers → ℕ
count_links [] h = 0
count_links ((user, a) ∷ table) h = count a h + count_links table h

unfoldable pub active_link_count : DefaultDispatcher → ℕ
unfolding count_links
active_link_count d = count_links d.link_managers d.managers

pub record Drained : Type 0 where
  pub dispatcher : DefaultDispatcher
  pub events : List LinkEvent
  pub total : ℕ

abbrev pub user_fields : String → Fields → Fields
user_fields user fields = if not (user == "") then store "user" (text user) fields else fields

-- The entries are those of the map when the `Range` begins.
unfoldable pub drain : String → Fields → Map String ℕ → DefaultDispatcher → Drained
unfolding clone_log_fields
drain reason fields [] d = record { dispatcher = d; events = []; total = 0 }
drain reason fields ((user, a) ∷ table) d =
    let c = close_all a reason (user_fields user (clone_log_fields fields)) d.managers in
    let rest =
      drain reason fields table
        (record d { managers = c.managers; link_managers = delete user d.link_managers }) in
    record {
      dispatcher = rest.dispatcher;
      events = c.events ++ rest.events;
      total = c.closed + rest.total;
    }

unfoldable pub close_all_managed_links : String → Fields → DefaultDispatcher → Drained
unfolding drain
close_all_managed_links reason fields d = drain reason fields d.link_managers d
