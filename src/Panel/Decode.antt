-- ===== src/Panel/Decode.antt =====
-- api/zicboard/node.go: the panel may send a number, a truth value or a list as a text and the other
-- way round. A raw message is a JSON value or none.
pub mod Records
pub mod Node
pub mod Exact
use zicnode.Prelude.{
  ℕ, Bool, true, false, not, ◌||◌, String, Option, none, some, List, [], ◌∷◌, ℤ, pos, negsuc, ltb,
  trim_space, to_lower, equal_fold, has_prefix, fields_of, atoi, parse_uint, mul64, string_key,
  ◌==◌, if◌then◌else◌, Json, Float, null, truth, number, string, array, items,
}
use zicnode.Panel.Node.{parse_bool_string}

-- The decoder of JSON texts, the text of a value (json.Compact), and strconv.ParseFloat.
pub record Decoder : Type 0 where
  pub parse : String → Option Json
  pub compact : Json → String
  pub parse_float : String → Option Float

unfoldable pub json_raw_is_empty : Option Json → Bool
json_raw_is_empty none = true
json_raw_is_empty (some null) = true
json_raw_is_empty _ = false

abbrev float_or : Option Float → ℤ → ℤ
float_or none default = default
float_or (some f) default = f.truncated

abbrev int_or : Option ℤ → ℤ → ℤ
int_or none default = default
int_or (some n) default = n

abbrev pub number_of : Bool → ℤ
number_of true = pos 1
number_of false = pos 0

unfoldable pub parse_int_string : Decoder → String → ℤ
unfolding parse_bool_string
parse_int_string d value =
    let t = trim_space value in
    if t == ""
    then pos 0
    else int_or (atoi t) (float_or (d.parse_float t) (number_of (parse_bool_string t)))

abbrev positive_or : Option Float → ℕ → ℕ
positive_or none default = default
positive_or (some f) default = if f.is_positive then f.as_uint else default

abbrev uint_or : Option ℕ → ℕ → ℕ
uint_or none default = default
uint_or (some n) default = n

unfoldable pub parse_uint64_string : Decoder → String → ℕ
unfolding parse_bool_string
parse_uint64_string d value =
    let t = trim_space value in
    if t == ""
    then 0
    else uint_or (parse_uint t)
        (positive_or (d.parse_float t) (if parse_bool_string t then 1 else 0))

unfoldable pub flexible_string : Decoder → Option Json → String
flexible_string d none = ""
flexible_string d (some null) = ""
flexible_string d (some (string s)) = s
flexible_string d (some v) = d.compact v

unfoldable pub raw_messages_to_strings : Decoder → List Json → List String
unfolding flexible_string
raw_messages_to_strings d [] = []
raw_messages_to_strings d (v ∷ vs) =
    let rest = raw_messages_to_strings d vs in
    if flexible_string d (some v) == "" then rest else flexible_string d (some v) ∷ rest

abbrev list_or_text : Decoder → Option Json → String → List String
list_or_text d (some (array vs)) t = raw_messages_to_strings d (items vs)
list_or_text d (some null) t = []
list_or_text d _ t = t ∷ []

unfoldable pub string_to_string_slice : Decoder → String → List String
unfolding raw_messages_to_strings
string_to_string_slice d value =
    let t = trim_space value in
    if t == "" || equal_fold t "null"
    then []
    else if has_prefix t "["
    then list_or_text d (d.parse t) t
    else t ∷ []

abbrev text_if_any : String → List String
text_if_any s = if s == "" then [] else s ∷ []

unfoldable pub flexible_string_slice : Decoder → Option Json → List String
unfolding raw_messages_to_strings string_to_string_slice
flexible_string_slice d none = []
flexible_string_slice d (some null) = []
flexible_string_slice d (some (array vs)) = raw_messages_to_strings d (items vs)
flexible_string_slice d (some (string s)) = string_to_string_slice d s
flexible_string_slice d (some v) = text_if_any (d.compact v)

abbrev pub trim_parts : List String → List String → List String
trim_parts [] rest = rest
trim_parts (part ∷ parts) rest =
    let more = trim_parts parts rest in
    if trim_space part == "" then more else trim_space part ∷ more

abbrev pub split_all : List String → List String
split_all [] = []
split_all (s ∷ ss) = trim_parts (fields_of s) (split_all ss)

unfoldable pub flexible_csv_string_slice : Decoder → Option Json → List String
unfolding flexible_string_slice fields_of
flexible_csv_string_slice d raw = split_all (flexible_string_slice d raw)

abbrev pub byte_in_front : ℤ → List ℕ → List ℕ
byte_in_front (pos n) rest = if ltb n 256 then n ∷ rest else rest
byte_in_front (negsuc n) rest = rest

abbrev pub bytes_of : Decoder → List String → List ℕ
bytes_of d [] = []
bytes_of d (s ∷ ss) = byte_in_front (parse_int_string d s) (bytes_of d ss)

unfoldable pub flexible_byte_slice : Decoder → Option Json → List ℕ
unfolding flexible_csv_string_slice parse_int_string
flexible_byte_slice d raw = bytes_of d (flexible_csv_string_slice d raw)

-- A literal of an integer is read as such, any other as a float64.
unfoldable pub flexible_int : Decoder → Option Json → ℤ
unfolding parse_int_string
flexible_int d (some (number n)) = int_or (atoi n.literal) n.value.truncated
flexible_int d (some (string s)) = parse_int_string d s
flexible_int d (some (truth b)) = number_of b
flexible_int d _ = pos 0

unfoldable pub flexible_uint64 : Decoder → Option Json → ℕ
unfolding parse_uint64_string
flexible_uint64 d (some (number n)) =
    uint_or (parse_uint n.literal) (if n.value.is_positive then n.value.as_uint else 0)
flexible_uint64 d (some (string s)) = parse_uint64_string d s
flexible_uint64 d (some (truth b)) = if b then 1 else 0
flexible_uint64 d _ = 0

unfoldable pub flexible_bool : Decoder → Option Json → Bool
unfolding parse_bool_string
flexible_bool d (some (truth b)) = b
flexible_bool d (some (string s)) = parse_bool_string s
flexible_bool d (some (number n)) = not n.value.is_zero
flexible_bool d _ = false

abbrev zero_or : Option Float → String → String
zero_or none value = value
zero_or (some f) value = if f.is_zero then "0" else "1"

unfoldable pub flexible_bool_string : Decoder → Option Json → String
unfolding flexible_string parse_bool_string
flexible_bool_string d raw =
    let value = trim_space (flexible_string d raw) in
    let v = to_lower value in
    if parse_bool_string value
    then "1"
    else if v == "0" || v == "false" || v == "no" || v == "n" || v == "off"
    then "0"
    else if v == ""
    then ""
    else zero_or (d.parse_float value) value

-- A value of type `any` that came from JSON: its numbers are of type float64.
unfoldable pub flexible_int_from_any : Decoder → Option Json → ℤ
unfolding parse_int_string
flexible_int_from_any d (some (number n)) = n.value.truncated
flexible_int_from_any d (some (string s)) = parse_int_string d s
flexible_int_from_any d (some (truth b)) = number_of b
flexible_int_from_any d _ = pos 0

unfoldable pub interval_to_time : Decoder → Option Json → ℤ
unfolding flexible_int_from_any
interval_to_time d i = mul64 (flexible_int_from_any d i) (pos 1000000000)

-- The text of a value, spaces between its parts aside.
unfoldable pub json_raw_or_nil : Decoder → Option Json → Option String
json_raw_or_nil d none = none
json_raw_or_nil d (some null) = none
json_raw_or_nil d (some (string s)) =
    let t = trim_space s in if t == "" || equal_fold t "null" then none else some t
json_raw_or_nil d (some v) = some (d.compact v)
