-- ===== src/Node/Life/Clean.antt =====
-- node/node.go: what is left after the controllers have been closed.
use zicnode.Prelude.{
  ℕ, suc, Bool, true, false, ◌&&◌, ◌||◌, String, Option, none, some, List, [], ◌∷◌, ◌≡◌, refl, ◌∙◌,
  arith, load, load-store, load-delete, string_key, str_iff, ◌==◌, if◌then◌else◌,
}
use zicnode.Panel.Config.{NodeInfo}
use zicnode.Limiter.Registry.{add_limiter, delete_limiter}
use zicnode.Node.Life.{
  Life, Ended, done, failed, panics, World, Engine, State, start_tasks, start_node, start_given,
  start_prepared, delete_if_added, without_limiter, close,
}
use zicnode.Node.Life.All.{Nodes, go_on, start_all, close_all}

abbrev pub inbound : String → World → Option NodeInfo
inbound t w = load t w.inbounds

abbrev pub limited : String → World → Option ℕ
limited t w = load t w.limiters.by_tag

abbrev pub has_tag : String → List Life → Bool
has_tag t [] = false
has_tag t (c ∷ cs) = c.tag == t || has_tag t cs

abbrev pub has_inbound : String → List Life → Bool
has_inbound t [] = false
has_inbound t (c ∷ cs) = c.node_added && c.tag == t || has_inbound t cs

-- What a step leaves alone: the limiters and the inbounds that its controller does not own.
abbrev pub LeavesAlone : String → World → State → Type 0
LeavesAlone t w s =
    ((s.0.tag == t) ≡ false → limited t s.1 ≡ limited t w)
    × ((s.0.node_added && s.0.tag == t) ≡ false → inbound t s.1 ≡ inbound t w)

start_node-LeavesAlone :
    (fingerprint : NodeInfo → String) (e : Engine) (node : NodeInfo) (t : String) (c : Life)
    (w : World) (adds_node adds_users : Bool)
    → LeavesAlone t w
        (start_node fingerprint node
          (record { adds_node = adds_node; adds_users = adds_users })
          (c, w)).1
unfolding add_limiter start_tasks
start_node-LeavesAlone fingerprint e node t c w false u =
    (λ p. ground (arith, load-store node.tag t w.limiters.next w.limiters.by_tag, p), λ p. refl)
start_node-LeavesAlone fingerprint e node t c w true false = (
  λ p. ground (arith, load-store node.tag t w.limiters.next w.limiters.by_tag, p),
  λ p. ground (arith, load-store node.tag t node w.inbounds, p),
)
start_node-LeavesAlone fingerprint e node t c w true true = (
  λ p. ground (arith, load-store node.tag t w.limiters.next w.limiters.by_tag, p),
  λ p. ground (arith, load-store node.tag t node w.inbounds, p),
)

started-LeavesAlone :
    (fingerprint : NodeInfo → String) (e : Engine) (t : String) (c : Life) (w : World)
    (o : Option NodeInfo)
    → LeavesAlone t w (start_given fingerprint e o (c, w)).1
started-LeavesAlone fingerprint e t c w none = (λ p. refl, λ p. refl)
started-LeavesAlone fingerprint e t c w (some node) =
    start_node-LeavesAlone fingerprint e node t c w e.adds_node e.adds_users

pub start_prepared-LeavesAlone :
    (fingerprint : NodeInfo → String) (e : Engine) (t : String) (c : Life) (w : World)
    → LeavesAlone t w (start_prepared fingerprint e (c, w)).1
unfolding start_prepared
start_prepared-LeavesAlone fingerprint e t c w = started-LeavesAlone fingerprint e t c w c.info

-- The same for all controllers.
abbrev pub LeavesOthers : String → World → Nodes → Type 0
LeavesOthers t w n =
    (has_tag t n.controllers ≡ false → limited t n.world ≡ limited t w)
    × (has_inbound t n.controllers ≡ false → inbound t n.world ≡ inbound t w)

go_on-LeavesOthers :
    (t : String) (w : World) (cs : List Life) (r : Ended × State) (rest : Ended × Nodes)
    → LeavesAlone t w r.1
    → LeavesOthers t r.1.1 rest.1
    → LeavesOthers t w (go_on cs r rest).1
go_on-LeavesOthers t w cs (done, (c, w')) rest h k =
    (λ p. ground (arith, h.0, k.0, p), λ p. ground (arith, h.1, k.1, p))
go_on-LeavesOthers t w cs (failed, (c, w')) rest h k =
    (λ p. ground (arith, h.0, p), λ p. ground (arith, h.1, p))
go_on-LeavesOthers t w cs (panics, (c, w')) rest h k =
    (λ p. ground (arith, h.0, p), λ p. ground (arith, h.1, p))

start_all-LeavesOthers :
    (fingerprint : NodeInfo → String) (e : ℕ → Engine) (t : String) (i : ℕ) (cs : List Life)
    (w : World)
    → LeavesOthers t w (start_all fingerprint e i cs w).1
unfolding start_all
start_all-LeavesOthers fingerprint e t i [] w = (λ p. refl, λ p. refl)
start_all-LeavesOthers fingerprint e t i (c ∷ cs) w =
    let r = start_prepared fingerprint (e i) (c, w) in
    go_on-LeavesOthers t w cs r (start_all fingerprint e (suc i) cs r.1.1)
      (start_prepared-LeavesAlone fingerprint (e i) t c w)
      (start_all-LeavesOthers fingerprint e t (suc i) cs r.1.1)

-- Closing one controller.
closed-limited :
    (t : String) (d b : Bool) (c : Life) (w : World)
    → limited t (delete_if_added b d (c, w)).1.1 ≡ limited t w
closed-limited t true true c w = refl
closed-limited t false true c w = refl
closed-limited t d false c w = refl

close-limited :
    (t : String) (d : Bool) (c : Life) (w : World)
    → (t == "") ≡ false
    → limited t (close d (c, w)).1.1 ≡ (if c.tag == t then none else limited t w)
unfolding close delete_limiter
close-limited t d c w p =
    closed-limited t d c.node_added (record c { monitor = none; report = none; renew = none })
      (without_limiter c.tag w)
    ∙ ground (arith, load-delete c.tag t w.limiters.by_tag, str_iff c.tag t, p)

closed-inbound :
    (t : String) (b : Bool) (c : Life) (w : World)
    → inbound t (delete_if_added b true (c, w)).1.1
      ≡ (if b && c.tag == t then none else inbound t w)
closed-inbound t true c w = load-delete c.tag t w.inbounds
closed-inbound t false c w = refl

close-inbound :
    (t : String) (c : Life) (w : World)
    → inbound t (close true (c, w)).1.1 ≡ (if c.node_added && c.tag == t then none else inbound t w)
unfolding close delete_limiter
close-inbound t c w =
    closed-inbound t c.node_added (record c { monitor = none; report = none; renew = none })
      (without_limiter c.tag w)
    ∙ ground arith

pub close_all-limited :
    (t : String) (d : ℕ → Bool) (i : ℕ) (cs : List Life) (w : World)
    → (t == "") ≡ false
    → limited t (close_all d i cs w).1 ≡ (if has_tag t cs then none else limited t w)
unfolding close_all
close_all-limited t d i [] w p = refl
close_all-limited t d i (c ∷ cs) w p = ground (
  arith,
  close-limited t (d i) c w p,
  close_all-limited t d (suc i) cs (close (d i) (c, w)).1.1 p,
)

close_all-inbound :
    (t : String) (i : ℕ) (cs : List Life) (w : World)
    → inbound t (close_all (λ i. true) i cs w).1 ≡ (if has_inbound t cs then none else inbound t w)
unfolding close_all
close_all-inbound t i [] w = refl
close_all-inbound t i (c ∷ cs) w =
    ground (arith, close-inbound t c w, close_all-inbound t (suc i) cs (close true (c, w)).1.1)

emptied :
    {A : Type 0}
    → (b : Bool) (o o' : Option A) → (b ≡ false → o ≡ o')
    → o' ≡ none
    → (if b then none else o) ≡ none
emptied b o o' h k = ground (arith, h, k)

-- The controllers of all nodes are started, which may end at any of them with an error, and then
-- closed. Under a tag that is not empty and had no limiter and no inbound before, no limiter is left,
-- whether or not the engine removes the inbounds, and no inbound, if the engine removes what it is
-- told to.
pub start_all-close_all :
    (fingerprint : NodeInfo → String) (e : ℕ → Engine) (d : ℕ → Bool) (cs : List Life) (w : World)
    (t : String)
    → (t == "") ≡ false
    → limited t w ≡ none
    → inbound t w ≡ none
    → let n = (start_all fingerprint e 0 cs w).1 in
      (limited t (close_all d 0 n.controllers n.world).1 ≡ none)
      × (inbound t (close_all (λ i. true) 0 n.controllers n.world).1 ≡ none)
start_all-close_all fingerprint e d cs w t p h k =
    let n = (start_all fingerprint e 0 cs w).1 in
    let s = start_all-LeavesOthers fingerprint e t 0 cs w in
    (
      close_all-limited t d 0 n.controllers n.world p
          ∙ emptied (has_tag t n.controllers) (limited t n.world) (limited t w) s.0 h,
      close_all-inbound t 0 n.controllers n.world
          ∙ emptied (has_inbound t n.controllers) (inbound t n.world) (inbound t w) s.1 k,
    )
