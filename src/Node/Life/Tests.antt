-- ===== src/Node/Life/Tests.antt =====
-- node/node.go on two concrete nodes, of which the second is not started.
use zicnode.Prelude.{
  ℕ, zero, suc, true, false, String, none, some, [], ◌∷◌, pos, ◌≡◌, refl, string_key, load, store,
}
use zicnode.Panel.Config.{NodeInfo, zero_node}
use zicnode.Limiter.Registry.{init, add_limiter}
use zicnode.Node.Life.{Answers, Life, failed, World, Engine, new_controller}
use zicnode.Node.Life.All.{prepare_all, start_all, close_all}
use zicnode.Node.Life.Discarded.{prepare_all-close_all}
use zicnode.Node.Life.Clean.{limited, inbound, start_all-close_all}

abbrev node : String → NodeInfo
node tag = record {
  id = pos 1;
  node_type = "vless";
  security = pos 0;
  push_interval = pos 60;
  pull_interval = pos 60;
  tag = tag;
  common = some zero_node;
}

abbrev first : Life
first = new_controller (some (node "a"))

abbrev second : Life
second = new_controller (some (node "b"))

abbrev engine : ℕ → Engine
engine zero = record { adds_node = true; adds_users = true }
engine (suc i) = record { adds_node = false; adds_users = true }

abbrev world : World
world = record { limiters = init; inbounds = [] }

second_fails : (start_all (λ n. n.tag) engine 0 (first ∷ second ∷ []) world).0 ≡ failed
unfolding start_all
second_fails = refl

start_all-close_all_example :
    let n = (start_all (λ n. n.tag) engine 0 (first ∷ second ∷ []) world).1 in
    (limited "a" (close_all (λ i. false) 0 n.controllers n.world).1 ≡ none)
    × (inbound "a" (close_all (λ i. true) 0 n.controllers n.world).1 ≡ none)
unfolding load
start_all-close_all_example =
    start_all-close_all (λ n. n.tag) engine (λ i. false) (first ∷ second ∷ []) world "a" refl refl
      refl

-- A runtime that runs, and one that is prepared beside it.
abbrev running : World
running = record world { limiters = (add_limiter "vless" "a" [] [] init).0 }

runs : limited "a" running ≡ some 0
unfolding add_limiter load store
runs = refl

abbrev answers : ℕ → Answers
answers i = record { node_info = none; user_list = some []; user_alive = some []; certified = true }

prepare_all-close_all_example :
    let n = (prepare_all (λ n. n.tag) answers 0 (first ∷ second ∷ []) running).1 in
    limited "a" (close_all (λ i. true) 0 n.controllers n.world).1 ≡ none
unfolding prepare_all
prepare_all-close_all_example =
    prepare_all-close_all (λ n. n.tag) answers (λ i. true) (first ∷ second ∷ []) running "a" refl
      refl refl
