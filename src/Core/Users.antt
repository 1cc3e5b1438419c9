-- ===== src/Core/Users.antt =====
-- core/user.go, `AddUsers` and `DelUsers`: the users of a node in the tables of the wrapper, in the
-- proxy engine's user manager, and in the dispatcher. The engine's managers are a parameter.
pub mod Gone
pub mod Severed
pub mod Deleted
pub mod Known
mod Tests
use zicnode.Prelude.{
  ℕ, suc, String, Option, none, some, List, [], ◌∷◌, ◌++◌, ℤ, pos, Map, load, store, delete, each,
  length, string_key, nat_key, ◌==◌, if◌then◌else◌,
}
use zicnode.Format.{user_tag}
use zicnode.Panel.User.{UserInfo}
use zicnode.Counter.{TrafficCounter, delete_counter}
use zicnode.Dispatcher.Log.{Fields, text, number}
use zicnode.Dispatcher.Link.{LinkEvent, close_all}
use zicnode.Dispatcher.Table.{DefaultDispatcher}
use zicnode.Core.Account.{User, build_for}

pub data UserError : Type 0 where
  unsupported_node_type no_user_manager user_refused panics : UserError

-- `S` is the state of the engine, in which a tag may have a user manager; `to_memory_user` and the
-- two calls of a user manager may fail.
pub record Engine {ℓ} (S : Type ℓ) : Type ℓ where
  pub has_user_manager : String → S → Option S
  pub accepts : User → Option User
  pub add_user : String → User → S → Option S
  pub remove_user : String → String → S → Option S

pub record V2Core {ℓ} (S : Type ℓ) : Type ℓ where
  pub engine : S
  pub uid_map : Map String ℤ
  pub dispatcher : DefaultDispatcher
  pub events : List LinkEvent

pub record AddUsersParams : Type 0 where
  pub tag : String
  pub users : List UserInfo
  pub node_type : String
  pub flow : String
  pub cipher : String
  pub server_key : String

unfoldable pub set_uid : String → UserInfo → Map String ℤ → Map String ℤ
set_uid tag u m = store (user_tag tag u.uuid) u.id m

-- The traffic counters of the user under the node are dropped.
unfoldable pub drop_counter : String → String → DefaultDispatcher → DefaultDispatcher
drop_counter tag user d = elim (load tag d.counter) [
  | none ↦ d
  | some t ↦ record d { counter = store tag (delete_counter user t) d.counter }
]

-- The links of the user are closed and the manager leaves the table.
unfoldable pub drop_links : Fields → String → DefaultDispatcher → DefaultDispatcher × List LinkEvent
drop_links fields user d = elim (load user d.link_managers) [
  | none ↦ (d, [])
  | some a ↦
      let closed = close_all a "user_removed_from_panel" fields d.managers in
      (
        record d { managers = closed.managers; link_managers = delete user d.link_managers },
        closed.events,
      )
]

abbrev pub removal_fields : String → UserInfo → Fields
removal_fields tag u =
    ("tag", text tag) ∷ ("user", text (user_tag tag u.uuid)) ∷ ("uid", number u.id) ∷ []

-- What follows the engine's removal of a user.
unfoldable pub forget {ℓ} : {S : Type ℓ} → String → UserInfo → S → V2Core S → V2Core S
unfolding drop_counter drop_links
forget tag u s c =
    let user = user_tag tag u.uuid in
    let (d, events) = drop_links (removal_fields tag u) user (drop_counter tag user c.dispatcher) in
    record {
      engine = s;
      uid_map = delete user c.uid_map;
      dispatcher = d;
      events = c.events ++ events;
    }

module _ {ℓ} {S : Type ℓ} (env : Engine S) where
  -- The users are added until one is refused; those before it stay.
  unfoldable pub add_each : String → List User → S → S × Option UserError
  add_each tag [] s = (s, none)
  add_each tag (u ∷ us) s = elim (env.accepts u) [
    | none ↦ (s, some user_refused)
    | some m ↦ elim (env.add_user tag m s) [
      | none ↦ (s, some user_refused)
      | some s' ↦ add_each tag us s'
    ]
  ]

  -- The users are removed until the engine refuses one; `none` is no error.
  unfoldable pub del_each : String → List UserInfo → V2Core S → V2Core S × Option UserError
  unfolding forget
  del_each tag [] c = (c, none)
  del_each tag (u ∷ us) c = elim (env.remove_user tag (user_tag tag u.uuid) c.engine) [
    | none ↦ (c, some user_refused)
    | some s ↦ del_each tag us (forget tag u s c)
  ]

  unfoldable pub del_users : List UserInfo → String → V2Core S → V2Core S × Option UserError
  unfolding del_each
  del_users users tag c = elim (env.has_user_manager tag c.engine) [
    | none ↦ (c, some no_user_manager)
    | some s ↦ del_each tag users (record c { engine = s })
  ]

  -- The number that is returned is that of all users, or 0 with the error.
  unfoldable pub add_users : AddUsersParams → V2Core S → V2Core S × (ℕ × Option UserError)
  unfolding set_uid add_each
  add_users p c =
      let known = record c { uid_map = each (set_uid p.tag) p.users c.uid_map } in
      elim (build_for p.node_type p.flow p.cipher p.server_key p.tag p.users) [
        | none ↦ (known, (0, some unsupported_node_type))
        | some none ↦ (known, (0, some panics))
        | some (some users) ↦ elim (env.has_user_manager p.tag c.engine) [
          | none ↦ (known, (0, some no_user_manager))
          | some s ↦
              let (s', failure) = add_each p.tag users s in
              (
                record known { engine = s' },
                elim failure [ none ↦ (length users, none) | some e ↦ (0, some e) ],
              )
        ]
      ]
