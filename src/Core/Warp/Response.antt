-- ===== src/Core/Warp/Response.antt =====
-- core/warp.go: the runtime that is made of the answer to a registration, a JSON object. Its numbers
-- are of type float64, so the cases of type int do not arise.
use Prim.Native.String.{◌++◌}
use zicnode.Prelude.{
  ℕ, true, false, not, ◌||◌, String, Option, none, some, List, [], ◌∷◌, ℤ, pos, ltb, trim_space,
  contains, atoi, itoa, string_key, ◌==◌, if◌then◌else◌, Json, Members, truth, number, string,
  array, object, items, value_of,
}
use zicnode.Panel.Config.{WarpSettings}
use zicnode.Core.Warp.{
  RuntimeConfig, warp_default_endpoint, clean_string_list, first_non_empty, unless_empty,
  non_default_warp_endpoint, is_default_warp_addresses,
}
use zicnode.Core.Warp.Base64.{
  Encoding, std_encoding, raw_std_encoding, url_encoding, raw_url_encoding, decode_string,
}

-- raw[key], `none` also in a nil map
abbrev pub entry : Option Members → String → Option Json
entry none key = none
entry (some ms) key = value_of key ms

unfoldable pub map_value : Option Members → String → Option Members
map_value raw key = elim (entry raw key) [ some (object ms) ↦ some ms | _ ↦ none ]

unfoldable pub slice_value : Option Members → String → List Json
slice_value raw key = elim (entry raw key) [ some (array vs) ↦ items vs | _ ↦ [] ]

unfoldable pub first_map : List Json → Option Members
first_map (object ms ∷ vs) = some ms
first_map _ = none

unfoldable pub string_value : Option Members → String → String
string_value raw key = elim (entry raw key) [
  | some (string s) ↦ trim_space s
  | some (number n) ↦ n.value.shown
  | some (truth true) ↦ "true"
  | some (truth false) ↦ "false"
  | _ ↦ ""
]

unfoldable pub int_from_any : Option Json → Option ℤ
int_from_any (some (number n)) = some n.value.truncated
int_from_any (some (string s)) = atoi (trim_space s)
int_from_any _ = none

unfoldable pub number_string : Json → String
number_string (number n) = itoa n.value.truncated
number_string (string s) = trim_space s
number_string _ = ""

abbrev port_of : List Json → String
port_of [] = "2408"
port_of (p ∷ ps) = if number_string p == "" then "2408" else number_string p

unfoldable pub endpoint_from_peer : Option Members → String
unfolding map_value slice_value string_value number_string first_non_empty
endpoint_from_peer none = ""
endpoint_from_peer (some peer) =
    let value = string_value (some peer) "endpoint" in
    let m = map_value (some peer) "endpoint" in
    let host =
      first_non_empty (string_value m "host" ∷ string_value m "v4" ∷ string_value m "v6" ∷ []) in
    if not (value == "")
    then value
    else if host == ""
    then ""
    else host ++ ":" ++ port_of (slice_value m "ports")

unfoldable pub ensure_cidr : String → String → String
ensure_cidr address suffix =
    let a = trim_space address in if a == "" || contains a "/" then a else a ++ suffix

abbrev address_of : Json → String
address_of (string s) = trim_space s
address_of (object ms) = first_non_empty (
    string_value (some ms) "v4"
    ∷ string_value (some ms) "v6"
    ∷ string_value (some ms) "address"
    ∷ [])
address_of _ = ""

unfoldable pub ensure_cidr_from_any : Json → String
unfolding string_value first_non_empty
ensure_cidr_from_any v =
    let a = address_of v in
    if a == "" || contains a "/" then a else if contains a ":" then a ++ "/128" else a ++ "/32"

abbrev cidrs : List Json → List String
cidrs [] = []
cidrs (v ∷ vs) = unless_empty (ensure_cidr_from_any v) (cidrs vs)

abbrev cidr_unless_empty : String → String → List String → List String
cidr_unless_empty a suffix rest = if a == "" then rest else ensure_cidr a suffix ∷ rest

abbrev list_or : List String → List String → List String
list_or [] ys = ys
list_or (x ∷ xs) ys = x ∷ xs

unfoldable pub addresses_from_warp_response : Option Members → List String
unfolding map_value slice_value string_value ensure_cidr ensure_cidr_from_any clean_string_list
addresses_from_warp_response config =
    let m = map_value config "interface" in
    let a = map_value m "addresses" in
    let named =
      cidr_unless_empty (string_value a "v4") "/32"
        (cidr_unless_empty (string_value a "v6") "/128" []) in
    clean_string_list (list_or named (cidrs (slice_value m "addresses")))

abbrev pub byte_and : Option ℤ → Option (List ℕ) → Option (List ℕ)
byte_and (some (pos n)) (some bs) = if ltb n 256 then some (n ∷ bs) else none
byte_and _ _ = none

abbrev pub all_bytes : List Json → Option (List ℕ)
all_bytes [] = some []
all_bytes (v ∷ vs) = byte_and (int_from_any (some v)) (all_bytes vs)

abbrev pub or_nothing : Option (List ℕ) → List ℕ
or_nothing none = []
or_nothing (some bs) = bs

-- A list that is not of bytes only counts for nothing.
unfoldable pub reserved_array : Option Json → List ℕ
unfolding int_from_any
reserved_array (some (array vs)) = or_nothing (all_bytes (items vs))
reserved_array _ = []

abbrev pub three : Option (List ℕ) → List ℕ → List ℕ
three (some (a ∷ b ∷ c ∷ bs)) rest = a ∷ b ∷ c ∷ []
three _ rest = rest

-- The first three bytes that the first fitting encoding gives.
unfoldable pub decode_first : List Encoding → String → List ℕ
decode_first [] s = []
decode_first (e ∷ es) s = three (decode_string e s) (decode_first es s)

abbrev pub or_bytes : List ℕ → List ℕ → List ℕ
or_bytes [] ys = ys
or_bytes (x ∷ xs) ys = x ∷ xs

abbrev pub encodings : List Encoding
encodings = std_encoding ∷ raw_std_encoding ∷ url_encoding ∷ raw_url_encoding ∷ []

unfoldable pub client_bytes : String → List ℕ
unfolding decode_first
client_bytes id = if id == "" then [] else decode_first encodings id

unfoldable pub client_id : Option Members → Option Members → String
unfolding string_value first_non_empty
client_id raw config = first_non_empty (
    string_value config "client_id"
    ∷ string_value raw "client_id"
    ∷ string_value config "clientId"
    ∷ string_value raw "clientId"
    ∷ [])

unfoldable pub reserved_from_warp_response : Option Members → Option Members → List ℕ
unfolding reserved_array client_bytes client_id
reserved_from_warp_response raw config =
    or_bytes (reserved_array (entry raw "reserved"))
      (or_bytes (reserved_array (entry config "reserved")) (client_bytes (client_id raw config)))

-- The addresses of the settings win unless they are the default ones.
abbrev pub choose_addresses : List String → List String → List String
choose_addresses [] own = own
choose_addresses (x ∷ xs) own = if is_default_warp_addresses own then x ∷ xs else own

-- `none` is the error of a response without the key of the peer.
unfoldable pub runtime_from_warp_register_response :
    Option Members → WarpSettings → String → String → Option RuntimeConfig
unfolding map_value slice_value first_map string_value first_non_empty endpoint_from_peer
    non_default_warp_endpoint is_default_warp_addresses addresses_from_warp_response
    reserved_from_warp_response
runtime_from_warp_register_response raw s private_key public_key =
    let config = map_value raw "config" in
    let peer = first_map (slice_value config "peers") in
    let peer_public_key =
      first_non_empty
        (s.peer_public_key ∷ string_value peer "public_key" ∷ string_value peer "publicKey" ∷ []) in
    if peer_public_key == ""
    then none
    else some (record {
      private_key = private_key;
      public_key = public_key;
      peer_public_key = peer_public_key;
      endpoint = first_non_empty (
          non_default_warp_endpoint s.endpoint
          ∷ endpoint_from_peer peer
          ∷ warp_default_endpoint
          ∷ []);
      addresses = choose_addresses (addresses_from_warp_response config) s.addresses;
      reserved = or_bytes s.reserved (reserved_from_warp_response raw config);
      mtu = s.mtu;
      domain_strategy = s.domain_strategy;
      source = "";
    })
