-- ===== src/Server/Event.antt =====
-- common/reload/event.go, and `reloadEventFields` of cmd/server.go.
use Prim.Native.String.{◌++◌}
use zicnode.Prelude.{String, Map, [], ◌∷◌, store, each, string_key, ◌==◌, if◌then◌else◌}

pub data Reason : Type 0 where
  unset manual_reload config_file_changed node_config_changed task_timeout cert_metadata_changed :
      Reason

pub record Event : Type 0 where
  pub reason : Reason
  pub node_tag : String
  pub task_name : String
  pub details : Map String String

unfoldable pub reason_string : Event → String
reason_string e = elim e.reason [
  | unset ↦ "manual_reload"
  | manual_reload ↦ "manual_reload"
  | config_file_changed ↦ "config_file_changed"
  | node_config_changed ↦ "node_config_changed"
  | task_timeout ↦ "task_timeout"
  | cert_metadata_changed ↦ "cert_metadata_changed"
]

abbrev pub Fields : Type 0
Fields = Map String String

unfoldable pub add_detail : String × String → Fields → Fields
add_detail (key, value) fields = if key == "" then fields else store ("detail_" ++ key) value fields

unfoldable pub reload_event_fields : Event → Fields
unfolding reason_string add_detail
reload_event_fields ev =
    let fields = ("reason", reason_string ev) ∷ [] in
    let tagged = if ev.node_tag == "" then fields else store "tag" ev.node_tag fields in
    let named = if ev.task_name == "" then tagged else store "task" ev.task_name tagged in
    each add_detail ev.details named
