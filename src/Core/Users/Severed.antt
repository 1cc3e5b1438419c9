-- ===== src/Core/Users/Severed.antt =====
-- core/user.go, `DelUsers`: the links of one user that are dropped.
use zicnode.Prelude.{
  ℕ, String, ◌≡◌, refl, sym, ◌∙◌, inl, inr, List, [], ◌∷◌, ◌++◌, Map, load, store, delete,
  string_key, nat_key, nat_beq_iff, arith, load-store, delete_absent, Option-cases,
}
use zicnode.Format.{user_tag}
use zicnode.Panel.User.{UserInfo}
use zicnode.Dispatcher.Log.{Fields}
use zicnode.Dispatcher.Link.{LinkManager, Managers, LinkEvent, empty_manager}
use zicnode.Dispatcher.Link.Closing.{endings, close_all-exact}
use zicnode.Dispatcher.Table.{DefaultDispatcher}
use zicnode.Dispatcher.Table.Drain.{Absent, IsValid}
use zicnode.Dispatcher.Table.Owned.{
  links_under, Absent-load, Absent-delete, AllOwned-load, deleted-Absent, removed-IsValid,
  links_under-store,
}
use zicnode.Core.Users.{drop_counter, drop_links}

-- The ends of the links of the users, each once, in the order of the users.
abbrev pub endings_of : String → List UserInfo → Map String ℕ → Managers → List LinkEvent
endings_of tag [] table h = []
endings_of tag (u ∷ us) table h =
    let user = user_tag tag u.uuid in
    endings (links_under user table h) ++ endings_of tag us (delete user table) h

endings_of-store :
    (a : ℕ) (m : LinkManager) (h : Managers) (tag : String) (us : List UserInfo)
    (table : Map String ℕ)
    → Absent a table
    → endings_of tag us table (store a m h) ≡ endings_of tag us table h
endings_of-store a m h tag [] table n = refl
endings_of-store a m h tag (u ∷ us) table n =
    let user = user_tag tag u.uuid in
    rw
      (
        links_under-store a m h user table n,
        endings_of-store a m h tag us (delete user table) (Absent-delete a user table n),
      )
      refl

-- What dropping the links of one user does.
pub record IsDropped (tag user : String) (d : DefaultDispatcher)
    (r : DefaultDispatcher × List LinkEvent) : Type 0 where
  pub valid : IsValid r.0
  pub table : r.0.link_managers ≡ delete user d.link_managers
  pub ended : r.1 ≡ endings (links_under user d.link_managers d.managers)
  pub severed :
      (h : Managers)
      → ((a : ℕ) → Absent a (delete user d.link_managers) → load a h ≡ load a r.0.managers)
      → links_under user d.link_managers h ≡ []
  pub others : (a : ℕ) → Absent a d.link_managers → load a r.0.managers ≡ load a d.managers
  pub kept :
      (k : String)
      → links_under k (delete user d.link_managers) r.0.managers
        ≡ links_under k (delete user d.link_managers) d.managers
  pub later :
      (us : List UserInfo)
      → endings_of tag us (delete user d.link_managers) r.0.managers
        ≡ endings_of tag us (delete user d.link_managers) d.managers

drop_links-IsDropped :
    (tag : String) (fields : Fields) (user : String) (d : DefaultDispatcher)
    → IsValid d
    → IsDropped tag user d (drop_links fields user d)
unfolding drop_links
drop_links-IsDropped tag fields user d v = elim (Option-cases (load user d.link_managers)) [
  | inl e ↦
      rw (e, drop_links)
        (record {
          valid = v;
          table = sym (delete_absent user d.link_managers e);
          ended = ground (arith, e);
          severed = λ h n. ground (arith, e);
          others = λ a n. refl;
          kept = λ k. refl;
          later = λ us. refl;
        })
  | inr (a, e) ↦
      let (m, l, own) = AllOwned-load d.managers a user d.link_managers v.owned e in
      let absent = deleted-Absent d.managers a user d.link_managers v.owned e in
      rw (e, drop_links, close_all-exact a "user_removed_from_panel" fields d.managers m l own)
        (record {
          valid = removed-IsValid d a user v e;
          table = refl;
          ended = ground (arith, e, l);
          severed = λ h n.
              ground
                (arith, e, n a absent, load-store a a empty_manager d.managers, nat_beq_iff a a);
          others = λ b n. ground (
            arith,
            load-store a b empty_manager d.managers,
            nat_beq_iff a b,
            Absent-load b a user d.link_managers n e,
          );
          kept = λ k.
              links_under-store a empty_manager d.managers k (delete user d.link_managers) absent;
          later = λ us.
              endings_of-store a empty_manager d.managers tag us (delete user d.link_managers)
                absent;
        })
]

pub drop_counter_links :
    (tag user : String) (d : DefaultDispatcher)
    → ((drop_counter tag user d).link_managers ≡ d.link_managers)
      × ((drop_counter tag user d).managers ≡ d.managers)
unfolding drop_counter
drop_counter_links tag user d = ground arith

pub drop_links-drop_counter-IsDropped :
    (tag : String) (fields : Fields) (user : String) (d d0 : DefaultDispatcher)
    → d0.link_managers ≡ d.link_managers
    → d0.managers ≡ d.managers
    → IsValid d
    → IsDropped tag user d (drop_links fields user d0)
drop_links-drop_counter-IsDropped tag fields user d d0 t m v =
    let h =
      drop_links-IsDropped tag fields user d0
        (record { distinct = rw t v.distinct; owned = rw (t, m) v.owned }) in
    record {
      valid = h.valid;
      table = h.table ∙ rw t refl;
      ended = h.ended ∙ rw (t, m) refl;
      severed = λ x n. sym (rw t refl) ∙ h.severed x (λ a k. n a (rw (sym t) k));
      others = λ a n. h.others a (rw t n) ∙ rw m refl;
      kept = λ k. rw (sym t, sym m) (h.kept k);
      later = λ us. rw (sym t, sym m) (h.later us);
    }
