-- ===== src/Server/Outcome.antt =====
-- cmd/server.go, `reload`: one core at a time, and which runtime serves afterwards.
use zicnode.Prelude.{
  ℕ, true, String, ◌≡◌, ◌≢◌, Option, none, some, List, [], ◌∷◌, ◌++◌, map, arith, string_key,
  nat_key, str_iff, ◌==◌, if◌then◌else◌,
}
use zicnode.Conf.{Conf, new_conf, load_from_path}
use zicnode.Server.Event.{Event}
use zicnode.Server.Signature.{
  SignatureData, build_runtime_signature, build_runtime_signature_nodes, fingerprint_of,
}
use zicnode.Server.Reload.{
  Runtime, Action, closes_nodes, closes_core, starts, applies_log, Environment, Outcome, skipped,
  success, failed, Reloaded, switch, new_prepared_runtime, reload_with, reload, close,
}

-- The cores that are up after the actions.
abbrev pub drop : ℕ → List ℕ → List ℕ
drop i [] = []
drop i (j ∷ up) = let rest = drop i up in if i == j then rest else j ∷ rest

abbrev pub up_after : List ℕ → List Action → List ℕ
up_after up [] = up
up_after up (closes_nodes r ∷ acts) = up_after up acts
up_after up (closes_core r ∷ acts) = up_after (drop r.id up) acts
up_after up (starts r ∷ acts) = up_after (r.id ∷ up) acts
up_after up (applies_log c ∷ acts) = up_after up acts

-- A core starts only where none is up, and the nodes of a runtime are closed before its core.
abbrev pub IsExclusive : List ℕ → List Action → Type 0
IsExclusive up [] = Unit
IsExclusive up (closes_nodes r ∷ acts) = IsExclusive up acts
IsExclusive up (closes_core r ∷ acts) = IsExclusive (drop r.id up) acts
IsExclusive up (starts r ∷ acts) = (up ≡ []) × IsExclusive (r.id ∷ up) acts
IsExclusive up (applies_log c ∷ acts) = IsExclusive up acts

-- Anything but a failure that ends the program.
abbrev pub Survives : Outcome → Type 0
Survives (failed f true) = ⊥
Survives _ = Unit

abbrev pub id_of : Option Runtime → List ℕ
id_of none = []
id_of (some r) = r.id ∷ []

-- What holds of a reload that began with the core of `old` up alone.
pub record IsSound (old : Runtime) (r : Reloaded) : Type 0 where
  pub exclusive : IsExclusive (old.id ∷ []) r.actions
  pub serves : Survives r.outcome → up_after (old.id ∷ []) r.actions ≡ id_of r.current
  pub stays : r.outcome ≢ success → r.current ≡ some old

-- A prepared runtime is a new object.
abbrev pub IsFresh : Environment → Runtime → Type 0
IsFresh env old =
    (c : Conf) (i : ℕ) (fs : List (Option String)) → env.prepare c ≡ some (i, fs) → old.id ≢ i

abbrev pub data_of : Conf → List (Option String) → SignatureData
data_of c fs = record {
  nodes = build_runtime_signature_nodes (some c);
  fingerprints = map fingerprint_of fs;
}

module _ (digest : SignatureData → String) where
  abbrev pub prepared_of : ℕ → Conf → List (Option String) → Runtime
  prepared_of i new fs = record {
    id = i;
    config = new;
    signature = build_runtime_signature digest (some new) fs;
  }

  -- Two configurations that differ in what the signature leaves out, read over the same nodes: the
  -- reload keeps the old runtime and closes only the prepared one.
  pub reload-skipped :
      (env : Environment) (ev : Event) (old : Runtime) (new : Conf) (i : ℕ)
      (fs : List (Option String))
      → load_from_path env.read new_conf ≡ some new
      → env.prepare new ≡ some (i, fs)
      → old.signature ≡ build_runtime_signature digest (some old.config) fs
      → build_runtime_signature_nodes (some old.config) ≡ build_runtime_signature_nodes (some new)
      → reload digest env ev (some old) ≡ record {
        current = some old;
        actions =
            close (record {
              id = i;
              config = new;
              signature = build_runtime_signature digest (some new) fs;
            })
            ++ applies_log new.log_config ∷ [];
        outcome = skipped;
      }
  unfolding reload reload_with new_prepared_runtime switch build_runtime_signature
  reload-skipped env ev old new i fs l p s n =
      rw (l, reload, p, reload_with, new_prepared_runtime) ground
        (arith, str_iff old.signature (build_runtime_signature digest (some new) fs))
