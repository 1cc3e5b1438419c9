-- ===== src/Core/Users/Gone.antt =====
-- core/user.go: what `DelUsers` leaves of the users in the tables.
use zicnode.Prelude.{
  ℕ, Bool, false, ◌&&◌, ◌||◌, String, ◌≡◌, refl, Option, none, some, inl, inr, List, [], ◌∷◌, load,
  string_key, nat_key, str_iff, arith, load-store, load-delete, Option-cases, ◌==◌, if◌then◌else◌,
}
use zicnode.Format.{user_tag}
use zicnode.Panel.User.{UserInfo}
use zicnode.Counter.{delete_counter}
use zicnode.Dispatcher.Log.{Fields}
use zicnode.Dispatcher.Table.{DefaultDispatcher}
use zicnode.Core.Users.{
  Engine, V2Core, drop_counter, drop_links, removal_fields, forget, del_each, del_users,
}

-- The key is that of one of the users.
abbrev pub among : String → String → List UserInfo → Bool
among tag k [] = false
among tag k (u ∷ us) = user_tag tag u.uuid == k || among tag k us

abbrev pub storage_at : String → String → DefaultDispatcher → Option ℕ
storage_at tag k d = elim (load tag d.counter) [ none ↦ none | some t ↦ load k t.table ]

drop_counter-storage :
    (tag user t k : String) (d : DefaultDispatcher)
    → storage_at t k (drop_counter tag user d)
      ≡ (if tag == t && user == k then none else storage_at t k d)
unfolding drop_counter delete_counter
drop_counter-storage tag user t k d = elim (Option-cases (load tag d.counter)) [
  | inl e ↦ rw (e, drop_counter) ground (arith, e, str_iff tag t)
  | inr (m, e) ↦
      rw (e, drop_counter) ground
        (
          arith,
          e,
          str_iff tag t,
          load-store tag t (delete_counter user m) d.counter,
          load-delete user k m.table,
        )
]

drop_links-storage :
    (t k : String) (fields : Fields) (user : String) (d : DefaultDispatcher)
    → storage_at t k (drop_links fields user d).0 ≡ storage_at t k d
unfolding drop_links
drop_links-storage t k fields user d = ground arith

drop_links-table :
    (k : String) (fields : Fields) (user : String) (d : DefaultDispatcher)
    → load k (drop_links fields user d).0.link_managers
      ≡ (if user == k then none else load k d.link_managers)
unfolding drop_links
drop_links-table k fields user d =
    ground (arith, str_iff user k, load-delete user k d.link_managers)

drop_counter-table :
    (tag user : String) (d : DefaultDispatcher)
    → (drop_counter tag user d).link_managers ≡ d.link_managers
unfolding drop_counter
drop_counter-table tag user d = ground arith

-- What the tables hold for a key, which may be that of a user who is gone, and under a node `t`.
pub record IsLeft {ℓ} {S : Type ℓ} (tag t k : String) (gone : Bool) (c r : V2Core S) : Type 0 where
  pub uid : load k r.uid_map ≡ (if gone then none else load k c.uid_map)
  pub storage :
      storage_at t k r.dispatcher ≡ (if tag == t && gone then none else storage_at t k c.dispatcher)
  pub links :
      load k r.dispatcher.link_managers ≡ (if gone then none else load k c.dispatcher.link_managers)

forget-IsLeft {ℓ} :
    {S : Type ℓ} (tag t k : String) (u : UserInfo) (s : S) (c : V2Core S)
    → IsLeft tag t k (user_tag tag u.uuid == k) c (forget tag u s c)
unfolding forget
forget-IsLeft tag t k u s c =
    let user = user_tag tag u.uuid in
    let d = drop_counter tag user c.dispatcher in
    ground (
      arith,
      load-delete user k c.uid_map,
      drop_links-storage t k (removal_fields tag u) user d,
      drop_links-table k (removal_fields tag u) user d,
      drop_counter-storage tag user t k c.dispatcher,
      drop_counter-table tag user c.dispatcher,
    )

module _ {ℓ} {S : Type ℓ} (env : Engine S) where
  del_each-IsLeft :
      (tag t k : String) (us : List UserInfo) (c : V2Core S)
      → (del_each env tag us c).1 ≡ none
      → IsLeft tag t k (among tag k us) c (del_each env tag us c).0
  unfolding del_each
  del_each-IsLeft tag t k [] c h = record { uid = refl; storage = ground arith; links = refl }
  del_each-IsLeft tag t k (u ∷ us) c h =
      elim (Option-cases (env.remove_user tag (user_tag tag u.uuid) c.engine)) [
        | inl e ↦ absurd (ground (arith, e, h))
        | inr (s, e) ↦
            let step = forget-IsLeft tag t k u s c in
            let h' : (del_each env tag us (forget tag u s c)).1 ≡ none = ground (arith, e, h) in
            let rest = del_each-IsLeft tag t k us (forget tag u s c) h' in
            rw (e, del_each) ground (arith, step, rest)
      ]

  pub del_users-IsLeft :
      (users : List UserInfo) (tag t k : String) (c : V2Core S)
      → (del_users env users tag c).1 ≡ none
      → IsLeft tag t k (among tag k users) c (del_users env users tag c).0
  unfolding del_users
  del_users-IsLeft users tag t k c h = elim (Option-cases (env.has_user_manager tag c.engine)) [
    | inl e ↦ absurd (ground (arith, e, h))
    | inr (s, e) ↦
        let h' : (del_each env tag users (record c { engine = s })).1 ≡ none =
          ground (arith, e, h) in
        let rest = del_each-IsLeft tag t k users (record c { engine = s }) h' in
        rw (e, del_users) ground (arith, rest)
  ]
