-- ===== src/Node/Life/All.antt =====
-- node/node.go: all controllers, started and closed in their order. What the panel and the engine
-- answer is given by the index.
use zicnode.Prelude.{ℕ, suc, Bool, String, List, [], ◌∷◌}
use zicnode.Panel.Config.{NodeInfo}
use zicnode.Node.Life.{
  Life, Answers, Ended, done, failed, panics, World, Engine, State, prepare, start_prepared, close,
}

pub record Nodes : Type 0 where
  pub controllers : List Life
  pub world : World

abbrev pub cons : Life → Ended × Nodes → Ended × Nodes
cons c (e, n) = (e, record n { controllers = c ∷ n.controllers })

-- The first error ends the loop, with the other controllers as they are.
abbrev pub go_on : List Life → Ended × State → Ended × Nodes → Ended × Nodes
go_on cs (done, (c, w)) rest = cons c rest
go_on cs (failed, (c, w)) rest = (failed, record { controllers = c ∷ cs; world = w })
go_on cs (panics, (c, w)) rest = (panics, record { controllers = c ∷ cs; world = w })

unfoldable pub prepare_all :
    (NodeInfo → String) → (ℕ → Answers) → ℕ → List Life → World → Ended × Nodes
unfolding prepare
prepare_all fingerprint a i [] w = (done, record { controllers = []; world = w })
prepare_all fingerprint a i (c ∷ cs) w =
    let r = prepare fingerprint (a i) c in
    go_on cs (r.0, (r.1, w)) (prepare_all fingerprint a (suc i) cs w)

unfoldable pub start_all :
    (NodeInfo → String) → (ℕ → Engine) → ℕ → List Life → World → Ended × Nodes
unfolding start_prepared
start_all fingerprint e i [] w = (done, record { controllers = []; world = w })
start_all fingerprint e i (c ∷ cs) w =
    let r = start_prepared fingerprint (e i) (c, w) in
    go_on cs r (start_all fingerprint e (suc i) cs r.1.1)

-- Closing goes on after an error, and the first error is the result.
abbrev pub first_error : Ended → Ended → Ended
first_error done e = e
first_error failed e = failed
first_error panics e = panics

unfoldable pub close_all : (ℕ → Bool) → ℕ → List Life → World → Ended × World
unfolding close
close_all deletes i [] w = (done, w)
close_all deletes i (c ∷ cs) w =
    let r = close (deletes i) (c, w) in
    let rest = close_all deletes (suc i) cs r.1.1 in (first_error r.0 rest.0, rest.1)
