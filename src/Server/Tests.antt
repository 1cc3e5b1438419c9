-- ===== src/Server/Tests.antt =====
-- Concrete reloads.
use zicnode.Prelude.{
  true, false, String, ◌≡◌, refl, some, List, [], ◌∷◌, pos, string_key, each, store,
}
use zicnode.Conf.{Conf, NodeConfig, LogConfig, new_conf}
use zicnode.Server.Event.{Event, manual_reload, reload_event_fields}
use zicnode.Server.Signature.{SignatureData, build_runtime_signature_nodes}
use zicnode.Server.Reload.{Runtime, Environment}

abbrev first_fingerprint : List String → String
first_fingerprint [] = ""
first_fingerprint (f ∷ fs) = f

abbrev weak_digest : SignatureData → String
weak_digest d = first_fingerprint d.fingerprints

abbrev one_node : NodeConfig
one_node = record {
  api_host = "https://panel";
  node_id = pos 7;
  api_key = "key";
  timeout = pos 0;
  retry_count = some (pos 3);
}

abbrev debug_log : LogConfig
debug_log = record { level = "debug"; output = "/var/log/zicnode"; access = "" }

abbrev old_conf : Conf
old_conf = record new_conf { node_configs = one_node ∷ [] }

abbrev file_conf : Conf
file_conf = record old_conf { log_config = debug_log }

abbrev old_runtime : Runtime
old_runtime = record { id = 1; config = old_conf; signature = "a" }

abbrev environment : String → Environment
environment f = record {
  read = λ c. some file_conf;
  prepare = λ c. some (2, some f ∷ []);
  nodes_close = true;
  core_closes = true;
  starts_up = true;
}

abbrev manual : Event
manual = record { reason = manual_reload; node_tag = ""; task_name = ""; details = [] }

event_fields :
    reload_event_fields (record manual { node_tag = "n"; details = ("from", "x") ∷ [] })
    ≡ ("reason", "manual_reload") ∷ ("tag", "n") ∷ ("detail_from", "x") ∷ []
unfolding reload_event_fields each store
event_fields = refl

same_nodes :
    build_runtime_signature_nodes (some old_conf) ≡ build_runtime_signature_nodes (some file_conf)
unfolding build_runtime_signature_nodes
same_nodes = refl

abbrev refusing : Environment
refusing = record (environment "b") { core_closes = false }
