-- ===== src/Node/Life/Discarded.antt =====
-- cmd/server.go with node/node.go: controllers that have been prepared beside running ones, and are
-- closed without having been started.
use zicnode.Prelude.{
  ℕ, suc, Bool, true, false, ◌||◌, String, Option, none, some, List, [], ◌∷◌, ◌≡◌, ap, ◌∙◌, ℤ, Map,
  arith, string_key, int_key, ◌==◌, if◌then◌else◌,
}
use zicnode.Panel.User.{UserInfo}
use zicnode.Panel.Config.{NodeInfo}
use zicnode.Node.Life.{
  Life, Answers, Ended, done, failed, panics, World, State, with_cert, with_alive, with_users,
  with_node, fetched, prepare,
}
use zicnode.Node.Life.All.{Nodes, go_on, prepare_all, close_all}
use zicnode.Node.Life.Clean.{limited, has_tag, close_all-limited}

-- The tag of a node that a controller knows.
abbrev pub is_of : String → Option NodeInfo → Bool
is_of t none = false
is_of t (some node) = node.tag == t

abbrev pub names : String → List Life → Bool
names t [] = false
names t (c ∷ cs) = is_of t c.info || names t cs

module _ (fingerprint : NodeInfo → String) (node : NodeInfo) where
  with_cert-tag :
      (certified : Bool) (c : Life) → (with_cert fingerprint node certified c).1.tag ≡ c.tag
  with_cert-tag certified c = ground arith

  with_alive-tag :
      (certified : Bool) (o : Option (Map ℤ ℤ)) (c : Life)
      → (with_alive fingerprint node certified o c).0 ≡ done
      → (with_alive fingerprint node certified o c).1.tag ≡ node.tag
  with_alive-tag certified none c h = ground (arith, h)
  with_alive-tag certified (some alive) c h =
      with_cert-tag certified (record c { alive_map = alive; tag = node.tag })

  with_users-tag :
      (a : Answers) (o : Option (List UserInfo)) (c : Life)
      → (with_users fingerprint node a o c).0 ≡ done
      → (with_users fingerprint node a o c).1.tag ≡ node.tag
  with_users-tag a none c h = ground (arith, h)
  with_users-tag a (some users) c h =
      with_alive-tag a.certified a.user_alive (record c { user_list = users }) h

module _ (fingerprint : NodeInfo → String) (t : String) where
  prepared_of :
      (a : Answers) (c : Life) (o : Option NodeInfo)
      → is_of t o ≡ true
      → let r = elim o as (λ x. Ended × Life) [
        | none ↦ fetched fingerprint a a.node_info c
        | some node ↦ with_node fingerprint a (some node) c
      ] in
        r.0 ≡ done → (r.1.tag == t) ≡ true
  prepared_of a c none p h = ground (arith, p)
  prepared_of a c (some node) p h =
      ap (λ s. s == t)
        (with_users-tag fingerprint node a a.user_list (record c { info = some node }) h)
      ∙ p

  prepare-tag :
      (a : Answers) (c : Life)
      → is_of t c.info ≡ true
      → (prepare fingerprint a c).0 ≡ done
      → ((prepare fingerprint a c).1.tag == t) ≡ true
  unfolding prepare
  prepare-tag a c p h = prepared_of a c c.info p h

  go_on-tag :
      (i : Bool) (b : Bool) (cs : List Life) (r : Ended × State) (rest : Ended × Nodes)
      → (go_on cs r rest).0 ≡ done
      → (i ≡ true → r.0 ≡ done → (r.1.0.tag == t) ≡ true)
      → (b ≡ true → rest.0 ≡ done → has_tag t rest.1.controllers ≡ true)
      → (i || b) ≡ true
      → has_tag t (go_on cs r rest).1.controllers ≡ true
  go_on-tag i b cs (done, (c, w)) rest h f g p = ground (arith, h, f, g, p)
  go_on-tag i b cs (failed, (c, w)) rest h f g p = ground (arith, h)
  go_on-tag i b cs (panics, (c, w)) rest h f g p = ground (arith, h)

  prepare_all-tag :
      (a : ℕ → Answers) (i : ℕ) (cs : List Life) (w : World)
      → (prepare_all fingerprint a i cs w).0 ≡ done
      → names t cs ≡ true
      → has_tag t (prepare_all fingerprint a i cs w).1.controllers ≡ true
  unfolding prepare_all
  prepare_all-tag a i [] w h p = ground (arith, p)
  prepare_all-tag a i (c ∷ cs) w h p =
      go_on-tag (is_of t c.info) (names t cs) cs
        ((prepare fingerprint (a i) c).0, ((prepare fingerprint (a i) c).1, w))
        (prepare_all fingerprint a (suc i) cs w) h (prepare-tag (a i) c)
        (λ q e. prepare_all-tag a (suc i) cs w e q) p

-- Controllers are prepared, all without an error, and closed without having been started, as a reload
-- does that finds the runtime unchanged. Under every tag that is not empty and that one of them knows
-- as its node's, no limiter is left, also where one was registered, by the controllers that run.
pub prepare_all-close_all :
    (fingerprint : NodeInfo → String) (a : ℕ → Answers) (d : ℕ → Bool) (cs : List Life) (w : World)
    (t : String)
    → (t == "") ≡ false
    → names t cs ≡ true
    → (prepare_all fingerprint a 0 cs w).0 ≡ done
    → let n = (prepare_all fingerprint a 0 cs w).1 in
      limited t (close_all d 0 n.controllers n.world).1 ≡ none
prepare_all-close_all fingerprint a d cs w t p k h =
    let n = (prepare_all fingerprint a 0 cs w).1 in
    close_all-limited t d 0 n.controllers n.world p
    ∙ ap (λ b. if b then none else limited t n.world) (prepare_all-tag fingerprint t a 0 cs w h k)
