-- ===== src/Node/Life.antt =====
-- node/controller.go and node/node.go: the life of the controllers of the nodes. The answers of the
-- panel, the request for a certificate and what the engine says are given. Copies of the node's
-- information are the information itself, since nothing is changed in place.
pub mod All
pub mod Clean
pub mod Discarded
mod Tests
use zicnode.Prelude.{
  Bool, true, false, not, ◌&&◌, ◌||◌, String, Option, none, some, List, [], ◌∷◌, ℤ, pos, Map, load,
  store, delete, string_key, int_key, ◌==◌, if◌then◌else◌,
}
use zicnode.Panel.User.{UserInfo}
use zicnode.Panel.Config.{NodeInfo, CertInfo, CommonNode}
use zicnode.Panel.Node.{security_tls}
use zicnode.Limiter.Registry.{Limiters, add_limiter, delete_limiter}

-- A periodic task that has been started: its interval in nanoseconds.
pub record Periodic : Type 0 where
  pub interval : ℤ
  pub at_once : Bool

pub record Life : Type 0 where
  pub info : Option NodeInfo
  pub tag : String
  pub user_list : List UserInfo
  pub alive_map : Map ℤ ℤ
  pub node_fingerprint : String
  pub node_added : Bool
  pub monitor : Option Periodic
  pub report : Option Periodic
  pub renew : Option Periodic

abbrev pub new_controller : Option NodeInfo → Life
new_controller info = record {
  info = info;
  tag = "";
  user_list = [];
  alive_map = [];
  node_fingerprint = "";
  node_added = false;
  monitor = none;
  report = none;
  renew = none;
}

-- An error is none. The panel may answer that the node has not changed, which is no information.
pub record Answers : Type 0 where
  pub node_info : Option (Option NodeInfo)
  pub user_list : Option (List UserInfo)
  pub user_alive : Option (Map ℤ ℤ)
  pub certified : Bool

pub data Ended : Type 0 where
  done failed panics : Ended

abbrev with_cert : (NodeInfo → String) → NodeInfo → Bool → Life → Ended × Life
with_cert fingerprint node certified c =
    if node.security == security_tls && not certified
    then (failed, c)
    else (done, record c { info = some node; node_fingerprint = fingerprint node })

abbrev with_alive : (NodeInfo → String) → NodeInfo → Bool → Option (Map ℤ ℤ) → Life → Ended × Life
with_alive fingerprint node certified none c = (failed, record c { alive_map = [] })
with_alive fingerprint node certified (some alive) c =
    with_cert fingerprint node certified (record c { alive_map = alive; tag = node.tag })

abbrev with_users :
    (NodeInfo → String) → NodeInfo → Answers → Option (List UserInfo) → Life → Ended × Life
with_users fingerprint node a none c = (failed, record c { user_list = [] })
with_users fingerprint node a (some users) c =
    with_alive fingerprint node a.certified a.user_alive (record c { user_list = users })

-- Without information the code reads the tag of nil: for its warning of an empty list, or when the
-- alive list has been fetched.
abbrev without_node : Option (List UserInfo) → Option (Map ℤ ℤ) → Life → Ended × Life
without_node none o c = (failed, record c { user_list = [] })
without_node (some []) o c = (panics, record c { user_list = [] })
without_node (some (u ∷ us)) none c = (failed, record c { user_list = u ∷ us; alive_map = [] })
without_node (some (u ∷ us)) (some alive) c =
    (panics, record c { user_list = u ∷ us; alive_map = alive })

abbrev with_node : (NodeInfo → String) → Answers → Option NodeInfo → Life → Ended × Life
with_node fingerprint a none c = without_node a.user_list a.user_alive c
with_node fingerprint a (some node) c =
    with_users fingerprint node a a.user_list (record c { info = some node })

abbrev fetched : (NodeInfo → String) → Answers → Option (Option NodeInfo) → Life → Ended × Life
fetched fingerprint a none c = (failed, record c { info = none })
fetched fingerprint a (some o) c = with_node fingerprint a o c

-- `fingerprint` is CoreFingerprint.
unfoldable pub prepare : (NodeInfo → String) → Answers → Life → Ended × Life
prepare fingerprint a c = elim c.info [
  | none ↦ fetched fingerprint a a.node_info c
  | some node ↦ with_node fingerprint a (some node) c
]

-- What is registered under the tags: limiters, and inbounds of the engine.
pub record World : Type 0 where
  pub limiters : Limiters
  pub inbounds : Map String NodeInfo

abbrev cert_mode_of : NodeInfo → String
cert_mode_of node = elim node.common [
  | none ↦ ""
  | some c ↦ elim c.cert_info [ none ↦ "" | some i ↦ i.cert_mode ]
]

abbrev renews : NodeInfo → Bool
renews node =
    let m = cert_mode_of node in
    node.security == security_tls && not (m == "none" || m == "" || m == "file" || m == "self")

unfoldable pub start_tasks : NodeInfo → Life → Life
start_tasks node c = record c {
  monitor = some (record { interval = node.pull_interval; at_once = false });
  report = some (record { interval = node.push_interval; at_once = false });
  renew =
      if renews node then some (record { interval = pos 86400000000000; at_once = true }) else none;
}

-- Whether the engine takes the inbound, and the users.
pub record Engine : Type 0 where
  pub adds_node : Bool
  pub adds_users : Bool

abbrev pub State : Type 0
State = Life × World

abbrev pub add_users_if : (NodeInfo → String) → NodeInfo → Bool → State → Ended × State
add_users_if fingerprint node true (c, w) = (
  done,
  (
    start_tasks node (record c {
      info = some node;
      node_fingerprint = if c.node_fingerprint == "" then fingerprint node else c.node_fingerprint;
    }),
    w,
  ),
)
add_users_if fingerprint node false s = (failed, s)

abbrev pub add_node_if : (NodeInfo → String) → NodeInfo → Engine → Bool → State → Ended × State
add_node_if fingerprint node e true (c, w) =
    add_users_if fingerprint node e.adds_users
      (record c { node_added = true }, record w { inbounds = store c.tag node w.inbounds })
add_node_if fingerprint node e false s = (failed, s)

abbrev pub start_node : (NodeInfo → String) → NodeInfo → Engine → State → Ended × State
start_node fingerprint node e (c, w) = add_node_if fingerprint node e e.adds_node (
  record c { tag = node.tag },
  record w {
    limiters = (add_limiter node.node_type node.tag c.user_list c.alive_map w.limiters).0;
  },
)

abbrev pub start_given : (NodeInfo → String) → Engine → Option NodeInfo → State → Ended × State
start_given fingerprint e none s = (failed, s)
start_given fingerprint e (some node) s = start_node fingerprint node e s

unfoldable pub start_prepared : (NodeInfo → String) → Engine → State → Ended × State
unfolding start_tasks add_limiter
start_prepared fingerprint e (c, w) = start_given fingerprint e c.info (c, w)

abbrev pub delete_node : Bool → State → Ended × State
delete_node true (c, w) =
    (done, (record c { node_added = false }, record w { inbounds = delete c.tag w.inbounds }))
delete_node false s = (failed, s)

abbrev pub delete_if_added : Bool → Bool → State → Ended × State
delete_if_added true deletes s = delete_node deletes s
delete_if_added false deletes s = (done, s)

abbrev pub without_limiter : String → World → World
without_limiter tag w =
    if tag == "" then w else record w { limiters = delete_limiter tag w.limiters }

-- `deletes` is whether the engine removes the inbound.
unfoldable pub close : Bool → State → Ended × State
unfolding delete_limiter
close deletes (c, w) =
    delete_if_added c.node_added deletes
      (record c { monitor = none; report = none; renew = none }, without_limiter c.tag w)
