-- ===== src/Dispatcher/Link.antt =====
-- core/app/dispatcher/linkmanager.go: the open links of a user. A manager and a managed writer are
-- shared, so each has an address; `Managers` is the heap of managers. `closes` and `interrupts` are
-- the calls of `common.Close` and `common.Interrupt` on the ends of a link, in order.
pub mod Closing
use zicnode.Prelude.{
  ℕ, ◌+◌, ltb, String, Option, none, some, List, [], ◌∷◌, ◌++◌, pos, Map, load, store, delete,
  length, nat_key, string_key, ◌==◌, if◌then◌else◌,
}
use zicnode.Dispatcher.Log.{Fields, FieldValue, text, number}

-- A reader of a link: the end of a pipe, or CounterReader around one, with the counter's address.
pub data Reader : Type 0 where
  source : ℕ → Reader
  counted : Reader → ℕ → Reader

pub record ManagedWriter : Type 0 where
  pub id : ℕ
  pub writer : ℕ
  pub manager : ℕ

-- The map of a manager, from the writer's address; the second part is the reader.
abbrev pub Links : Type 0
Links = Map ℕ (ManagedWriter × Reader)

pub record LinkManager : Type 0 where
  pub links : Links

abbrev pub Managers : Type 0
Managers = Map ℕ LinkManager

pub data LinkEvent : Type 0 where
  closes : ℕ → LinkEvent
  interrupts : Reader → LinkEvent

abbrev pub empty_manager : LinkManager
empty_manager = record { links = [] }

-- A write through the pointer to a manager.
abbrev modify_manager : (Links → Links) → ℕ → Managers → Managers
modify_manager f a h = elim (load a h) [
  | none ↦ h
  | some m ↦ store a (record { links = f m.links }) h
]

unfoldable pub add_link : ManagedWriter → Reader → Managers → Managers
add_link w reader h = modify_manager (store w.id (w, reader)) w.manager h

unfoldable pub remove_writer : ManagedWriter → Managers → Managers
remove_writer w h = modify_manager (delete w.id) w.manager h

unfoldable pub count : ℕ → Managers → ℕ
count a h = elim (load a h) [ none ↦ 0 | some m ↦ length m.links ]

-- ManagedWriter.Close
unfoldable pub close_writer : ManagedWriter → Managers → Managers × List LinkEvent
unfolding remove_writer
close_writer w h = (remove_writer w h, closes w.writer ∷ [])

unfoldable pub close_links : Links → Managers → Managers × List LinkEvent
unfolding close_writer
close_links [] h = (h, [])
close_links ((i, (w, r)) ∷ ls) h =
    let (h', first) = close_writer w h in
    let (h'', rest) = close_links ls h' in (h'', first ++ interrupts r ∷ rest)

unfoldable pub clone_log_fields : Fields → Fields
clone_log_fields [] = []
clone_log_fields ((key, value) ∷ fields) =
    let rest = clone_log_fields fields in store key value rest

pub record Closed : Type 0 where
  pub managers : Managers
  pub events : List LinkEvent
  pub closed : ℕ
  pub logged : Option Fields

-- Nothing is logged when there was no link.
unfoldable pub close_fields : String → Fields → ℕ → Option Fields
unfolding clone_log_fields
close_fields reason fields closed =
    if ltb 0 closed
    then some (
        store "closed_links" (number (pos closed)) (
          store "action" (text "close_managed_links") (
            store "reason" (text reason)
              (store "event" (text "zicnode_disconnect") (clone_log_fields fields)))))
    else none

unfoldable pub close_all : ℕ → String → Fields → Managers → Closed
unfolding close_links close_fields
close_all a reason fields h = elim (load a h) [
  | none ↦ record { managers = h; events = []; closed = 0; logged = none }
  | some m ↦
      let (h', events) = close_links m.links (store a empty_manager h) in
      record {
        managers = h';
        events = events;
        closed = length m.links;
        logged = close_fields reason fields (length m.links);
      }
]
