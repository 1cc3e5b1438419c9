-- ===== src/Server/Reload.antt =====
-- cmd/server.go, `reload`: from one runtime to the next. What the panel, the file and the proxy
-- engine answer is an `Environment`; what the code does to the runtimes is a list of actions in
-- order.
use zicnode.Prelude.{
  ℕ, Bool, true, false, not, String, Option, none, some, List, [], ◌∷◌, ◌++◌, string_key, ◌==◌,
  if◌then◌else◌,
}
use zicnode.Conf.{Conf, LogConfig, new_conf, load_from_path}
use zicnode.Server.Event.{Event, Reason, node_config_changed, cert_metadata_changed}
use zicnode.Server.Signature.{SignatureData, build_runtime_signature, same_local_runtime_config}

-- runtimeBundle; `id` tells the objects apart.
pub record Runtime : Type 0 where
  pub id : ℕ
  pub config : Conf
  pub signature : String

pub data Action : Type 0 where
  closes_nodes closes_core starts : Runtime → Action
  applies_log : LogConfig → Action

-- `read` is the file; `prepare` gives a runtime's id and the fingerprints of its nodes, or fails;
-- the rest says which of the later calls succeed.
pub record Environment : Type 0 where
  pub read : Conf → Option Conf
  pub prepare : Conf → Option (ℕ × List (Option String))
  pub nodes_close : Bool
  pub core_closes : Bool
  pub starts_up : Bool

pub data FailureAction : Type 0 where
  runtime_missing keep_old_runtime prepare_failed old_runtime_close_failed old_core_close_failed
        start_failed :
      FailureAction

pub data Outcome : Type 0 where
  skipped success : Outcome
  failed : FailureAction → Bool → Outcome

pub record Reloaded : Type 0 where
  pub current : Option Runtime
  pub actions : List Action
  pub outcome : Outcome

-- runtimeBundle.close: the nodes first, then the core whatever the nodes said.
abbrev pub close : Runtime → List Action
close r = closes_nodes r ∷ closes_core r ∷ []

unfoldable pub is_fatal_reload_failure : Reason → Bool → Bool
is_fatal_reload_failure reason changed = elim reason [
  | node_config_changed ↦ true
  | cert_metadata_changed ↦ true
  | _ ↦ changed
]

-- From the point where the old runtime is closed.
unfoldable pub replace : Environment → Runtime → Runtime → Reloaded
replace env old prepared =
    if not env.nodes_close
    then record {
      current = some old;
      actions = closes_nodes old ∷ (close prepared ++ closes_core old ∷ []);
      outcome = failed old_runtime_close_failed true;
    }
    else if not env.core_closes
    then record {
      current = some old;
      actions = closes_nodes old ∷ closes_core old ∷ close prepared;
      outcome = failed old_core_close_failed true;
    }
    else if not env.starts_up
    then record {
      current = some old;
      actions = closes_nodes old ∷ closes_core old ∷ starts prepared ∷ close prepared;
      outcome = failed start_failed true;
    }
    else record {
      current = some prepared;
      actions =
          closes_nodes old
          ∷ closes_core old
          ∷ starts prepared
          ∷ applies_log prepared.config.log_config
          ∷ [];
      outcome = success;
    }

-- sameRuntimeConfig decides between the old runtime and the prepared one.
unfoldable pub switch : Environment → Runtime → Runtime → Reloaded
unfolding replace
switch env old prepared =
    if old.signature == prepared.signature
    then record {
      current = some old;
      actions = close prepared ++ applies_log prepared.config.log_config ∷ [];
      outcome = skipped;
    }
    else replace env old prepared

module _ (digest : SignatureData → String) where
  -- newPreparedRuntime
  unfoldable pub new_prepared_runtime : Environment → Conf → Option Runtime
  new_prepared_runtime env c = elim (env.prepare c) [
    | none ↦ none
    | some (id, infos) ↦
        some (record {
          id = id;
          config = c;
          signature = build_runtime_signature digest (some c) infos;
        })
  ]

  unfoldable pub reload_with : Environment → Event → Runtime → Conf → Reloaded
  unfolding new_prepared_runtime is_fatal_reload_failure switch
  reload_with env ev old new =
      let changed = not (same_local_runtime_config digest (some old.config) (some new)) in
      elim (new_prepared_runtime env new) [
        | none ↦ record {
          current = some old;
          actions = [];
          outcome = failed prepare_failed (is_fatal_reload_failure ev.reason changed);
        }
        | some prepared ↦ switch env old prepared
      ]

  unfoldable pub reload : Environment → Event → Option Runtime → Reloaded
  unfolding reload_with
  reload env ev none = record {
    current = none;
    actions = [];
    outcome = failed runtime_missing true;
  }
  reload env ev (some old) = elim (load_from_path env.read new_conf) [
    | none ↦ record { current = some old; actions = []; outcome = failed keep_old_runtime false }
    | some new ↦ reload_with env ev old new
  ]
