-- ===== src/Node/Monitor/Kept.antt =====
-- node/task.go, `nodeInfoMonitor`: whatever the panel and the engine answer, the limiter knows the
-- users of the controller's list.
use zicnode.Prelude.{
  not, ◌||◌, String, ◌≡◌, refl, sym, subst, Option, none, some, inl, inr, List, [], ◌∷◌, ℤ, Map,
  each, string_key, ◌==◌, if◌then◌else◌, Option-cases, Bool-cases,
}
use zicnode.Panel.User.{UserInfo}
use zicnode.Panel.Search.{Unique}
use zicnode.Limiter.State.{Limiter}
use zicnode.Limiter.Users.{update_user}
use zicnode.Core.Users.{Engine, V2Core, UserError}
use zicnode.Node.Diff.{compare_user_list}
use zicnode.Node.Sync.{InSync, update_user-InSync}
use zicnode.Node.Monitor.{
  NodeInfo, Fetched, interrupted, failed, fetched, Answers, Controller, apply_runtime_node_info,
  is_empty, settle, adopt, sync_users, adopt_alive, monitor_users, node_info_monitor,
}

abbrev pub IsSynced {ℓ} : {S : Type ℓ} → Controller S → Type 0
IsSynced c = InSync c.tag c.user_list c.limiter

-- A list of users that the panel answers has no uuid twice.
abbrev pub HasUnique : Fetched (List UserInfo) → Type 0
HasUnique interrupted = Unit
HasUnique failed = Unit
HasUnique (fetched none) = Unit
HasUnique (fetched (some users)) = Unique users

update_nothing : (tag : String) (l : Limiter) → update_user tag [] [] [] l ≡ l
unfolding update_user each
update_nothing tag l = refl

update_empty :
    (tag : String) (added deleted modified : List UserInfo) (l : Limiter)
    → (if not (is_empty added) || not (is_empty deleted) || not (is_empty modified)
        then update_user tag added deleted modified l
        else l)
      ≡ update_user tag added deleted modified l
update_empty tag [] [] [] l = sym (update_nothing tag l)
update_empty tag [] [] (m ∷ ms) l = refl
update_empty tag [] (d ∷ ds) ms l = refl
update_empty tag (a ∷ more) ds ms l = refl

adopt-IsSynced {ℓ} :
    {S : Type ℓ} (new : List UserInfo) (c : Controller S)
    → Unique new
    → IsSynced c
    → IsSynced (adopt (compare_user_list c.user_list new) new c)
unfolding adopt
adopt-IsSynced new c u s =
    let d = compare_user_list c.user_list new in
    subst (λ l. InSync c.tag new l)
      (sym (update_empty c.tag d.added d.deleted d.modified c.limiter))
      (update_user-InSync c.tag c.user_list new c.limiter u s)

alive-InSync {ℓ} :
    {S : Type ℓ} (alive : Option (Map ℤ ℤ)) (c : Controller S)
    → IsSynced c
    → IsSynced (adopt_alive alive c)
unfolding adopt_alive
alive-InSync none c s = s
alive-InSync (some alive) c s = record { at = s.at }

settle-IsSynced {ℓ} :
    {S : Type ℓ} (new : List UserInfo) (s1 s2 : V2Core S) (e1 e2 : Option UserError)
    (c : Controller S)
    → Unique new
    → IsSynced c
    → IsSynced (settle (compare_user_list c.user_list new) new s1 s2 e1 e2 c)
unfolding settle
settle-IsSynced new s1 s2 (some x) e2 c u s = record { at = s.at }
settle-IsSynced new s1 s2 none (some x) c u s = record { at = s.at }
settle-IsSynced new s1 s2 none none c u s = adopt-IsSynced new (record c { server = s2 }) u s

module _ {ℓ} {S : Type ℓ} (env : Engine S) where
  monitor_users-IsSynced :
      (n : Fetched NodeInfo) (users : Fetched (List UserInfo)) (alive : Fetched (Map ℤ ℤ))
      (c : Controller S)
      → HasUnique users
      → IsSynced c
      → IsSynced
          (monitor_users env (record { node_info = n; user_list = users; user_alive = alive }) c).0
  unfolding monitor_users sync_users
  monitor_users-IsSynced n interrupted alive c u s = s
  monitor_users-IsSynced n failed alive c u s = s
  monitor_users-IsSynced n (fetched new) interrupted c u s = s
  monitor_users-IsSynced n (fetched new) failed c u s = s
  monitor_users-IsSynced n (fetched none) (fetched alive) c u s = alive-InSync alive c s
  monitor_users-IsSynced n (fetched (some new)) (fetched alive) c u s =
      settle-IsSynced new _ _ _ _ (adopt_alive alive c) u (alive-InSync alive c s)

  reload-IsSynced :
      (core_fingerprint : NodeInfo → String) (n : Fetched NodeInfo)
      (users : Fetched (List UserInfo)) (alive : Fetched (Map ℤ ℤ)) (c : Controller S)
      → HasUnique users
      → IsSynced c
      → IsSynced
          (node_info_monitor env core_fingerprint
            (record { node_info = n; user_list = users; user_alive = alive })
            c).0
  unfolding node_info_monitor apply_runtime_node_info
  reload-IsSynced core_fingerprint interrupted users alive c u s = s
  reload-IsSynced core_fingerprint failed users alive c u s = s
  reload-IsSynced core_fingerprint (fetched none) users alive c u s =
      monitor_users-IsSynced (fetched none) users alive c u s
  reload-IsSynced core_fingerprint (fetched (some n)) users alive c u s =
      elim (Bool-cases (core_fingerprint n == c.node_fingerprint)) [
        | inl e ↦
            rw (e, node_info_monitor)
              (monitor_users-IsSynced (fetched (some n)) users alive (apply_runtime_node_info n c) u
                (record { at = s.at }))
        | inr e ↦ elim (Option-cases c.reload_ch) [
          | inl f ↦
              rw (e, f, node_info_monitor)
                (monitor_users-IsSynced (fetched (some n)) users alive c u s)
          | inr (w, f) ↦ rw (e, f, node_info_monitor) (record { at = s.at })
        ]
      ]

  -- Whatever the panel answers, where its list has no uuid twice, and whatever the engine does with
  -- the users, a round that begins with the limiter in step with the controller's list of users
  -- ends so: the limiter knows exactly the users of the list that is kept then, with their limits.
  pub node_info_monitor-IsSynced :
      (core_fingerprint : NodeInfo → String) (answers : Answers) (c : Controller S)
      → HasUnique answers.user_list
      → IsSynced c
      → IsSynced (node_info_monitor env core_fingerprint answers c).0
  node_info_monitor-IsSynced core_fingerprint answers c u s =
      reload-IsSynced core_fingerprint answers.node_info answers.user_list answers.user_alive c u s
