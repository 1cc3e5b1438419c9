-- ===== src/Core/Users/Deleted.antt =====
-- core/user.go, `DelUsers`: the links and the tables after the users are deleted.
use zicnode.Prelude.{
  ℕ, Bool, true, false, ◌||◌, String, ◌≡◌, refl, sym, ap, ◌∙◌, subst, none, inl, inr, List, [], ◌∷◌,
  ◌++◌, Map, load, delete, string_key, nat_key, str_iff, arith, load-delete, Option-cases, ◌==◌,
  if◌then◌else◌,
}
use mathlib.Core.List.{append_assoc, append-nil}
use zicnode.Format.{user_tag}
use zicnode.Panel.User.{UserInfo}
use zicnode.Dispatcher.Link.{Managers, LinkEvent}
use zicnode.Dispatcher.Link.Closing.{endings}
use zicnode.Dispatcher.Table.{DefaultDispatcher}
use zicnode.Dispatcher.Table.Drain.{Absent, IsValid}
use zicnode.Dispatcher.Table.Owned.{links_under, Absent-delete}
use zicnode.Core.Users.{
  Engine, V2Core, drop_counter, drop_links, removal_fields, forget, del_each, del_users,
}
use zicnode.Core.Users.Gone.{among, IsLeft, del_users-IsLeft}
use zicnode.Core.Users.Severed.{
  endings_of, IsDropped, drop_links-drop_counter-IsDropped, drop_counter_links,
}

-- What deleting users does to the links.
pub record IsSevered {ℓ} {S : Type ℓ} (tag : String) (us : List UserInfo) (c r : V2Core S)
    : Type 0 where
  pub ended :
      r.events ≡ c.events ++ endings_of tag us c.dispatcher.link_managers c.dispatcher.managers
  pub links :
      (k : String)
      → links_under k c.dispatcher.link_managers r.dispatcher.managers ≡ (
          if among tag k us
          then []
          else links_under k c.dispatcher.link_managers c.dispatcher.managers)
  pub untouched :
      (a : ℕ)
      → Absent a c.dispatcher.link_managers
      → load a r.dispatcher.managers ≡ load a c.dispatcher.managers

links_of_other :
    (k user : String) (table : Map String ℕ) (h : Managers)
    → (user == k) ≡ false
    → links_under k table h ≡ links_under k (delete user table) h
links_of_other k user table h n = ground (arith, n, load-delete user k table)

-- One user is dropped, which leaves `d`, and then the others are deleted, which leaves `rest`.
links_after :
    (user k : String) (gone : Bool) (tag : String) (c d : DefaultDispatcher) (ends : List LinkEvent)
    (rest : Managers)
    → IsDropped tag user c (d, ends)
    → ((a : ℕ) → Absent a d.link_managers → load a rest ≡ load a d.managers)
    → (links_under k d.link_managers rest
        ≡ (if gone then [] else links_under k d.link_managers d.managers))
    → links_under k c.link_managers rest
      ≡ (if user == k || gone then [] else links_under k c.link_managers c.managers)
links_after user k gone tag c d ends rest h far near = by_key (user == k) refl
  where
    near' :
        links_under k (delete user c.link_managers) rest
        ≡ (if gone then [] else links_under k (delete user c.link_managers) c.managers)
    near' =
        subst (λ t. links_under k t rest ≡ (if gone then [] else links_under k t d.managers))
          h.table near
        ∙ ap (λ l. if gone then [] else l) (h.kept k)

    by_key :
        (b : Bool)
        → (user == k) ≡ b
        → links_under k c.link_managers rest
          ≡ (if b || gone then [] else links_under k c.link_managers c.managers)
    by_key true e =
        subst (λ x. links_under x c.link_managers rest ≡ []) (ground (arith, str_iff user k, e))
          (h.severed rest (λ a n. far a (subst (Absent a) (sym h.table) n)))
    by_key false e =
        links_of_other k user c.link_managers rest e
        ∙ near'
        ∙ ap (λ l. if gone then [] else l)
            (sym (links_of_other k user c.link_managers c.managers e))

dropped_first {ℓ} :
    {S : Type ℓ} (tag : String) (u : UserInfo) (us : List UserInfo) (c mid r : V2Core S)
    (events : List LinkEvent)
    → IsDropped tag (user_tag tag u.uuid) c.dispatcher (mid.dispatcher, events)
    → IsSevered tag us (record mid { events = c.events ++ events }) r
    → IsSevered tag (u ∷ us) c r
dropped_first tag u us c mid r events h rest =
    let user = user_tag tag u.uuid in
    let d = mid.dispatcher in
    record {
      ended =
          rest.ended
          ∙ append_assoc c.events events (endings_of tag us d.link_managers d.managers)
          ∙ ap (λ x. c.events ++ x)
              (ap (λ x. x ++ endings_of tag us d.link_managers d.managers) h.ended
                ∙ ap
                    (λ x.
                      endings (links_under user c.dispatcher.link_managers c.dispatcher.managers)
                      ++ x)
                    (ap (λ t. endings_of tag us t d.managers) h.table ∙ h.later us));
      links = λ k.
          links_after user k (among tag k us) tag c.dispatcher d events r.dispatcher.managers h
            rest.untouched (rest.links k);
      untouched = λ a n.
          rest.untouched a
            (subst (Absent a) (sym h.table) (Absent-delete a user c.dispatcher.link_managers n))
          ∙ h.others a n;
    }

-- What deleting users does to the tables, for each key and each node's counters, and to the links.
pub record IsDeleted {ℓ} {S : Type ℓ} (tag : String) (us : List UserInfo) (c r : V2Core S)
    : Type 0 where
  pub tables : (k t : String) → IsLeft tag t k (among tag k us) c r
  pub severed : IsSevered tag us c r

module _ {ℓ} {S : Type ℓ} (env : Engine S) where
  del_each-IsSevered :
      (tag : String) (us : List UserInfo) (c : V2Core S)
      → IsValid c.dispatcher
      → (del_each env tag us c).1 ≡ none
      → IsSevered tag us c (del_each env tag us c).0
  unfolding del_each forget
  del_each-IsSevered tag [] c v h = record {
    ended = sym (append-nil c.events);
    links = λ k. refl;
    untouched = λ a n. refl;
  }
  del_each-IsSevered tag (u ∷ us) c v h =
      elim (Option-cases (env.remove_user tag (user_tag tag u.uuid) c.engine)) [
        | inl e ↦ absurd (ground (arith, e, h))
        | inr (s, e) ↦
            let user = user_tag tag u.uuid in
            let mid = forget tag u s c in
            let h' : (del_each env tag us mid).1 ≡ none = ground (arith, e, h) in
            let same = drop_counter_links tag user c.dispatcher in
            let dropped =
              drop_links-drop_counter-IsDropped tag (removal_fields tag u) user c.dispatcher
                (drop_counter tag user c.dispatcher) same.0 same.1 v in
            rw (e, del_each)
              (dropped_first tag u us c mid (del_each env tag us mid).0
                (drop_links (removal_fields tag u) user (drop_counter tag user c.dispatcher)).1
                dropped (del_each-IsSevered tag us mid dropped.valid h'))
      ]

  -- When the dispatcher's tables are valid (no user has two entries, and no two share a manager) and
  -- `DelUsers` succeeds, every user it was given has no uid, no entry in the node's traffic counters
  -- and no links: each link that it had is ended, both ends once and in the order of the users, and
  -- nothing else is ended. The uid, the entry in the counters and the links of every other key, and
  -- the entries of every key under every other node, are what they were.
  pub del_users-IsDeleted :
      (users : List UserInfo) (tag : String) (c : V2Core S)
      → IsValid c.dispatcher
      → (del_users env users tag c).1 ≡ none
      → IsDeleted tag users c (del_users env users tag c).0
  unfolding del_users
  del_users-IsDeleted users tag c v h = record {
    tables = λ k t. del_users-IsLeft env users tag t k c h;
    severed = elim (Option-cases (env.has_user_manager tag c.engine)) [
      | inl e ↦ absurd (ground (arith, e, h))
      | inr (s, e) ↦
          let h' : (del_each env tag users (record c { engine = s })).1 ≡ none =
            ground (arith, e, h) in
          let rest = del_each-IsSevered tag users (record c { engine = s }) v h' in
          rw (e, del_users)
            (record { ended = rest.ended; links = rest.links; untouched = rest.untouched })
    ];
  }
