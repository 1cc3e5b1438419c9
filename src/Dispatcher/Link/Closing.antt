-- ===== src/Dispatcher/Link/Closing.antt =====
-- core/app/dispatcher/linkmanager.go, `CloseAll`: what is left, and what is closed.
use zicnode.Prelude.{
  ℕ, String, ◌≡◌, refl, some, List, [], ◌∷◌, load, store, delete, length, nat_key, nat_beq_iff,
  arith, load-store, store_same,
}
use zicnode.Dispatcher.Log.{Fields}
use zicnode.Dispatcher.Link.{
  Links, LinkManager, Managers, LinkEvent, closes, interrupts, empty_manager, remove_writer,
  close_writer, close_links, close_fields, close_all,
}

-- Every writer of the map knows the manager at this address.
abbrev pub Owned : ℕ → Links → Type 0
Owned a [] = Unit
Owned a ((i, (w, r)) ∷ ls) = (w.manager ≡ a) × Owned a ls

-- Each link is closed and interrupted once, in the order of the map.
abbrev pub endings : Links → List LinkEvent
endings [] = []
endings ((i, (w, r)) ∷ ls) = closes w.writer ∷ interrupts r ∷ endings ls

close_links-endings :
    (a : ℕ) (ls : Links) (h : Managers)
    → Owned a ls
    → load a h ≡ some empty_manager
    → close_links ls h ≡ (h, endings ls)
unfolding close_links close_writer remove_writer delete
close_links-endings a [] h o e = refl
close_links-endings a ((i, (w, r)) ∷ ls) h o e =
    ground (arith, close_links-endings a ls h o.1 e, store_same a empty_manager h e)

-- A manager whose writers know it is left empty, no other manager is touched, and each of its links
-- is closed and interrupted once; the number returned is that of the links.
pub close_all-exact :
    (a : ℕ) (reason : String) (fields : Fields) (h : Managers) (m : LinkManager)
    → load a h ≡ some m
    → Owned a m.links
    → close_all a reason fields h ≡ record {
      managers = store a empty_manager h;
      events = endings m.links;
      closed = length m.links;
      logged = close_fields reason fields (length m.links);
    }
unfolding close_all
close_all-exact a reason fields h m e o = ground (
  arith,
  load-store a a empty_manager h,
  nat_beq_iff a a,
  close_links-endings a m.links (store a empty_manager h) o,
)
