-- ===== src/Panel/Client/UserList.antt =====
-- api/zicboard/user.go: `GetUserList` and `GetUserAlive`. The decoder of MessagePack and that of one
-- user are arguments.
use zicnode.Prelude.{
  String, Option, none, some, List, [], ◌∷◌, ◌++◌, ℤ, pos, leb_ℤ, contains, string_key, int_key,
  ◌==◌, if◌then◌else◌, Json, Items, Members, null, truth, number, string, array, object, empty,
  item, last, member, items, Map,
}
use zicnode.Panel.User.{UserInfo}
use zicnode.Panel.Decode.Node.{all_of}
use zicnode.Panel.Client.{Client, Reply, call_failed, no_response, response}

-- The tokens of a text: a string, the begin of a list with what is in it, any other.
pub data Token : Type 0 where
  text : String → Token
  begin_array : Items → Token
  other : Token

unfoldable mutual
  pub tokens : Json → List Token
  tokens null = other ∷ []
  tokens (truth b) = other ∷ []
  tokens (number n) = other ∷ []
  tokens (string s) = text s ∷ []
  tokens (array vs) = begin_array vs ∷ item_tokens vs
  tokens (object ms) = other ∷ member_tokens ms

  pub item_tokens : Items → List Token
  item_tokens empty = other ∷ []
  item_tokens (item v vs) = tokens v ++ item_tokens vs

  pub member_tokens : Members → List Token
  member_tokens last = other ∷ []
  member_tokens (member k v ms) = text k ∷ tokens v ++ member_tokens ms

-- What follows the first string "users".
unfoldable pub after_users : List Token → List Token
after_users [] = []
after_users (text s ∷ ts) = let rest = after_users ts in if s == "users" then ts else rest
after_users (t ∷ ts) = after_users ts

abbrev first_array : List Token → Option (List Json)
first_array (begin_array vs ∷ ts) = some (items vs)
first_array _ = none

-- `none` is an error of decoding.
unfoldable pub users_of_json : (Json → Option UserInfo) → Option Json → Option (List UserInfo)
unfolding tokens after_users
users_of_json read none = none
users_of_json read (some v) = elim (first_array (after_users (tokens v))) [
  | none ↦ none
  | some vs ↦ all_of read vs
]

pub data Answer : Type 0 where
  failed : Answer
  unchanged : Answer
  users : List UserInfo → Answer

-- The body of a response: its content type, and what its two decoders make of it.
pub record Body : Type 0 where
  pub content_type : String
  pub json : Option Json
  pub msgpack : Option (List UserInfo)

abbrev pub decoded : (Json → Option UserInfo) → Body → Option (List UserInfo)
decoded read b =
    if contains b.content_type "application/x-msgpack" then b.msgpack else users_of_json read b.json

abbrev pub keep_users : String → Client → Option (List UserInfo) → Answer × Client
keep_users etag c none = (failed, c)
keep_users etag c (some us) = (users us, record c { user_etag = etag })

unfoldable pub get_user_list : (Json → Option UserInfo) → Reply Body → Client → Answer × Client
unfolding contains users_of_json
get_user_list read call_failed c = (failed, c)
get_user_list read no_response c = (failed, c)
get_user_list read (response status etag b) c =
    if status == pos 304 then (unchanged, c) else keep_users etag c (decoded read b)

-- The context of a call may have ended.
pub data AliveReply : Type 0 where
  interrupted : AliveReply
  unanswered : AliveReply
  answered : ℤ → Option (Map ℤ ℤ) → AliveReply

abbrev alive_or : Option (Map ℤ ℤ) → Map ℤ ℤ
alive_or none = []
alive_or (some m) = m

-- `none` is the error of the context; every other failure is an empty map.
unfoldable pub get_user_alive : AliveReply → Client → Option (Map ℤ ℤ) × Client
get_user_alive interrupted c = (none, record c { alive_map = [] })
get_user_alive unanswered c = (some [], record c { alive_map = [] })
get_user_alive (answered status body) c =
    let m = if leb_ℤ (pos 399) status then [] else alive_or body in
    (some m, record c { alive_map = m })
