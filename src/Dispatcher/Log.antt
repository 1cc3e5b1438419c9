-- ===== src/Dispatcher/Log.antt =====
-- core/app/dispatcher/default.go, `logConnectionDrop` and `logRouteDrop`: the fields they log.
-- `logrus` writes them out.
use zicnode.Prelude.{
  Bool, true, false, ◌||◌, not, String, Option, none, some, [], ◌∷◌, ℤ, pos, Map, store, string_key,
  int_key, ◌==◌, if◌then◌else◌,
}
use zicnode.Limiter.State.{Reason, RejectInfo, allowed, unknown_user, device_limit_exceeded}

pub data FieldValue : Type 0 where
  text : String → FieldValue
  number : ℤ → FieldValue

abbrev pub Fields : Type 0
Fields = Map String FieldValue

-- The constants of limiter/limiter.go.
unfoldable pub reason_text : Reason → String
reason_text r = elim r [
  | allowed ↦ "allowed"
  | unknown_user ↦ "unknown_user"
  | device_limit_exceeded ↦ "device_limit_exceeded"
]

abbrev is_device_limit : Reason → Bool
is_device_limit r = elim r [ device_limit_exceeded ↦ true | _ ↦ false ]

abbrev set_text : String → String → Fields → Fields
set_text key value fields = if value == "" then fields else store key (text value) fields

abbrev set_number : String → ℤ → Bool → Fields → Fields
set_number key value set fields = if set then store key (number value) fields else fields

abbrev set_destination : Option String → Fields → Fields
set_destination none fields = fields
set_destination (some d) fields = store "destination" (text d) fields

abbrev first_fields : String → String → Fields
first_fields reason action =
    ("event", text "zicnode_disconnect") ∷ ("reason", text reason) ∷ ("action", text action) ∷ []

-- The destination is `none` when it is not valid.
unfoldable pub connection_drop_fields :
    String → String → String → String → String → Option String → RejectInfo → Fields
connection_drop_fields reason action tag user ip destination info =
    let fields = first_fields (if reason == "" then "unknown" else reason) action in
    let named = set_text "ip" ip (set_text "user" user (set_text "tag" tag fields)) in
    let reached = set_destination destination named in
    let known = set_number "uid" info.uid (not (info.uid == pos 0)) reached in
    let limited =
      set_number "device_limit" info.device_limit (not (info.device_limit == pos 0)) known in
    set_number "alive_ip" info.alive_ip
      (not (info.alive_ip == pos 0) || is_device_limit info.reason) limited

unfoldable pub route_drop_fields : String → String → String → Option String → Fields
route_drop_fields reason inbound_tag outbound_tag destination =
    let fields = first_fields reason "close_connection" in
    set_destination destination
      (set_text "outbound_tag" outbound_tag (set_text "inbound_tag" inbound_tag fields))
