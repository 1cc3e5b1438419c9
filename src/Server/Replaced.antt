-- ===== src/Server/Replaced.antt =====
-- cmd/server.go, `reload`: how a runtime is replaced, whichever calls fail.
use zicnode.Prelude.{
  ◌&&◌, Bool, true, false, IsIn, ◌≡◌, ◌≢◌, some, List, [], ◌∷◌, ◌++◌, string_key, nat_key,
  if◌then◌else◌,
}
use zicnode.Conf.{Conf}
use zicnode.Server.Event.{Event}
use zicnode.Server.Reload.{
  Runtime, Action, closes_nodes, closes_core, starts, applies_log, Environment, Outcome, success,
  failed, Reloaded, replace,
}
use zicnode.Server.Outcome.{up_after}

-- Calls in their order, with whether they succeed: those that are made, and whether all succeed.
abbrev pub made : List (Action × Bool) → List Action
made [] = []
made ((a, ok) ∷ calls) = let rest = made calls in if ok then a ∷ rest else a ∷ []

abbrev pub all_succeed : List (Action × Bool) → Bool
all_succeed [] = true
all_succeed ((a, ok) ∷ calls) = ok && all_succeed calls

abbrev pub calls_of : Environment → Runtime → Runtime → List (Action × Bool)
calls_of env old prepared =
    (closes_nodes old, env.nodes_close)
    ∷ (closes_core old, env.core_closes)
    ∷ (starts prepared, env.starts_up)
    ∷ []

abbrev pub IsFatal : Outcome → Type 0
IsFatal (failed f true) = Unit
IsFatal _ = ⊥

-- What a reload that replaces the runtime does.
pub record IsReplaced (env : Environment) (old prepared : Runtime) (r : Reloaded) : Type 0 where
  pub later : List Action
  pub ordered : r.actions ≡ made (calls_of env old prepared) ++ later
  pub outcome : elim (all_succeed (calls_of env old prepared)) as (λ b. Type 0) [
    | true ↦ r.outcome ≡ success
    | false ↦ IsFatal r.outcome
  ]
  pub current : r.current ≡ some (if all_succeed (calls_of env old prepared) then prepared else old)
  pub up :
      up_after (old.id ∷ []) r.actions
      ≡ (if all_succeed (calls_of env old prepared) then prepared.id ∷ [] else [])
  pub end : elim (all_succeed (calls_of env old prepared)) as (λ b. Type 0) [
    | true ↦ later ≡ applies_log prepared.config.log_config ∷ []
    | false ↦ IsIn (closes_nodes prepared) later × IsIn (closes_core prepared) later
  ]

module _ (env : Environment) (old prepared : Runtime) (n : old.id ≢ prepared.id) where
  abbrev calling : Bool → Bool → Bool → Environment
  calling a b c = record env { nodes_close = a; core_closes = b; starts_up = c }

  abbrev Replaced : Bool → Bool → Bool → Type 0
  Replaced a b c = IsReplaced (calling a b c) old prepared (replace (calling a b c) old prepared)
