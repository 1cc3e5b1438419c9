-- ===== src/Node/Monitor.antt =====
-- node/task.go, `nodeInfoMonitor` and `applyRuntimeNodeInfo`: one round of the controller of a
-- node. The answers of the panel are given; the channel of reloads holds one event.
pub mod Kept
use zicnode.Prelude.{
  ℕ, suc, Bool, true, false, not, ◌&&◌, ◌||◌, String, Option, none, some, List, [], ◌∷◌, ℤ, Map,
  string_key, ◌==◌, if◌then◌else◌,
}
use zicnode.Panel.User.{UserInfo}
use zicnode.Limiter.State.{Limiter}
use zicnode.Limiter.Users.{update_user}
use zicnode.Core.Users.{Engine, V2Core, UserError, AddUsersParams, add_users, del_users}
use zicnode.Server.Event.{Event, node_config_changed}
use zicnode.Node.Diff.{Diff, compare_user_list}

-- What the controller uses of panel.NodeInfo.
pub record NodeInfo : Type 0 where
  pub node_type : String
  pub flow : String
  pub cipher : String
  pub server_key : String
  pub pull_interval : ℤ
  pub push_interval : ℤ

-- A call of the panel: an error, which may be that of the context, or an answer, which is nil where
-- nothing has changed.
pub data Fetched {ℓ} (A : Type ℓ) : Type ℓ where
  interrupted failed : Fetched A
  fetched : Option A → Fetched A

pub record Answers : Type 0 where
  pub node_info : Fetched NodeInfo
  pub user_list : Fetched (List UserInfo)
  pub user_alive : Fetched (Map ℤ ℤ)

-- `reload_ch` is none where the channel is nil, else what it holds. The two intervals are those of
-- the periodic tasks, none where there is no task yet.
pub record Controller {ℓ} (S : Type ℓ) : Type ℓ where
  pub tag : String
  pub info : NodeInfo
  pub node_fingerprint : String
  pub user_list : List UserInfo
  pub alive_map : Map ℤ ℤ
  pub limiter : Limiter
  pub server : V2Core S
  pub reload_ch : Option (Option Event)
  pub monitor_interval : Option ℤ
  pub report_interval : Option ℤ

-- The error that the round returns.
pub data Returned : Type 0 where
  done context_error : Returned

abbrev with_interval : ℤ → Option ℤ → Option ℤ
with_interval i none = none
with_interval i (some old) = some i

unfoldable pub apply_runtime_node_info {ℓ} : {S : Type ℓ} → NodeInfo → Controller S → Controller S
apply_runtime_node_info n c = record c {
  info = n;
  monitor_interval = with_interval n.pull_interval c.monitor_interval;
  report_interval = with_interval n.push_interval c.report_interval;
}

-- A send that does not block: an event in the channel stays.
abbrev pub send : Event → Option Event → Option Event
send ev none = some ev
send ev (some waiting) = some waiting

abbrev pub is_empty {ℓ} : {A : Type ℓ} → List A → Bool
is_empty [] = true
is_empty (x ∷ xs) = false

-- The limiter, and the list, after both succeeded.
unfoldable pub adopt {ℓ} : {S : Type ℓ} → Diff → List UserInfo → Controller S → Controller S
adopt d new c = record c {
  limiter =
      if not (is_empty d.added) || not (is_empty d.deleted) || not (is_empty d.modified)
      then update_user c.tag d.added d.deleted d.modified c.limiter
      else c.limiter;
  user_list = new;
}

-- The controller and the limiter share this map in the source, so that what UpdateUser deletes from the
-- limiter's is gone from the controller's. Nothing reads the controller's after Prepare, and here each
-- has a map of its own.
unfoldable pub adopt_alive {ℓ} : {S : Type ℓ} → Option (Map ℤ ℤ) → Controller S → Controller S
adopt_alive none c = c
adopt_alive (some alive) c = record c {
  alive_map = alive;
  limiter = record c.limiter { alive_list = alive };
}

abbrev params_of {ℓ} : {S : Type ℓ} → Controller S → List UserInfo → AddUsersParams
params_of c users = record {
  tag = c.tag;
  users = users;
  node_type = c.info.node_type;
  flow = c.info.flow;
  cipher = c.info.cipher;
  server_key = c.info.server_key;
}

abbrev reload_event {ℓ} : {S : Type ℓ} → Controller S → Event
reload_event c = record {
  reason = node_config_changed;
  node_tag = c.tag;
  task_name = "";
  details = [];
}

-- The users who are gone leave the core; `none` is no error.
unfoldable pub remove_deleted {ℓ} :
    {S : Type ℓ} → Engine S → List UserInfo → String → V2Core S → V2Core S × Option UserError
remove_deleted env deleted tag s =
    if is_empty deleted then (s, none) else del_users env deleted tag s

-- A failure ends the round with the core as it is then.
unfoldable pub settle {ℓ} :
    {S : Type ℓ}
    → Diff
    → List UserInfo
    → V2Core S
    → V2Core S
    → Option UserError
    → Option UserError
    → Controller S
    → Controller S
unfolding adopt
settle d new removed added (some _) _ c = record c { server = removed }
settle d new removed added none (some _) c = record c { server = added }
settle d new removed added none none c = adopt d new (record c { server = added })

module _ {ℓ} {S : Type ℓ} (env : Engine S) where
  unfoldable pub add_new : AddUsersParams → V2Core S → V2Core S × Option UserError
  add_new p s =
      let (s', answer) = add_users env p s in if is_empty p.users then (s, none) else (s', answer.1)

  unfoldable pub sync_users : List UserInfo → Controller S → Controller S
  unfolding remove_deleted add_new settle
  sync_users new c =
      let d = compare_user_list c.user_list new in
      let (s1, e1) = remove_deleted env d.deleted c.tag c.server in
      let (s2, e2) = add_new (params_of c d.added) s1 in settle d new s1 s2 e1 e2 c

  -- After the node's information: the users and the devices that are alive.
  unfoldable pub monitor_users : Answers → Controller S → Controller S × Returned
  unfolding sync_users adopt_alive
  monitor_users answers c = elim answers.user_list [
    | interrupted ↦ (c, context_error)
    | failed ↦ (c, done)
    | fetched new ↦ elim answers.user_alive [
      | interrupted ↦ (c, context_error)
      | failed ↦ (c, done)
      | fetched alive ↦
          let c' = adopt_alive alive c in
          elim new [ none ↦ (c', done) | some users ↦ (sync_users users c', done) ]
    ]
  ]

  unfoldable pub node_info_monitor :
      (NodeInfo → String) → Answers → Controller S → Controller S × Returned
  unfolding monitor_users apply_runtime_node_info
  node_info_monitor core_fingerprint answers c = elim answers.node_info [
    | interrupted ↦ (c, context_error)
    | failed ↦ (c, done)
    | fetched none ↦ monitor_users answers c
    | fetched (some n) ↦
        if core_fingerprint n == c.node_fingerprint
        then monitor_users answers (apply_runtime_node_info n c)
        else elim c.reload_ch [
          | some waiting ↦ (record c { reload_ch = some (send (reload_event c) waiting) }, done)
          | none ↦ monitor_users answers c
        ]
  ]
