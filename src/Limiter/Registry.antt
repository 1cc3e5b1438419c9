-- ===== src/Limiter/Registry.antt =====
-- limiter/limiter.go: the table of limiters, by node tag. The controller of a node and the
-- dispatcher hold the same limiter, so the table maps a tag to an address.
use zicnode.Prelude.{
  ℕ, suc, String, Option, List, [], ℤ, pos, Map, load, store, delete, each, string_key, nat_key,
}
use zicnode.Format.{user_tag}
use zicnode.Panel.User.{UserInfo}
use zicnode.Rate.{empty}
use zicnode.Limiter.State.{Limiter}
use zicnode.Limiter.Users.{limit_info_of}

pub record Limiters : Type 0 where
  pub next : ℕ
  pub heap : Map ℕ Limiter
  pub by_tag : Map String ℕ

-- limiter.Init
abbrev pub init : Limiters
init = record { next = 0; heap = []; by_tag = [] }

-- A limiter with no users.
abbrev pub fresh : String → Map ℤ ℤ → Limiter
fresh node_type alive_list = record {
  node_type = node_type;
  speed_limit = pos 0;
  user_online_ip = [];
  old_user_online = [];
  uuid_to_uid = [];
  user_limit_info = [];
  speed_limiter = [];
  alive_list = alive_list;
  buckets = empty;
}

unfoldable pub register_user : String → UserInfo → Limiter → Limiter
unfolding limit_info_of
register_user tag user l = record l {
  uuid_to_uid = store user.uuid user.id l.uuid_to_uid;
  user_limit_info = store (user_tag tag user.uuid) (limit_info_of user) l.user_limit_info;
}

unfoldable pub new_limiter : String → String → List UserInfo → Map ℤ ℤ → Limiter
unfolding register_user
new_limiter node_type tag users alive_list =
    each (register_user tag) users (fresh node_type alive_list)

unfoldable pub add_limiter : String → String → List UserInfo → Map ℤ ℤ → Limiters → Limiters × ℕ
unfolding new_limiter
add_limiter node_type tag users alive_list t = (
  record {
    next = suc t.next;
    heap = store t.next (new_limiter node_type tag users alive_list) t.heap;
    by_tag = store tag t.next t.by_tag;
  },
  t.next,
)

-- The error is "not found".
unfoldable pub get_limiter : String → Limiters → Option ℕ
get_limiter tag t = load tag t.by_tag

unfoldable pub delete_limiter : String → Limiters → Limiters
delete_limiter tag t = record t { by_tag = delete tag t.by_tag }
