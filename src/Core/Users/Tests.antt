-- ===== src/Core/Users/Tests.antt =====
-- core/user.go on concrete inputs: an engine whose state is the list of the users' emails.
use zicnode.Prelude.{String, ◌≡◌, refl, none, some, List, [], ◌∷◌, pos, load, string_key}
use zicnode.Panel.User.{UserInfo}
use zicnode.Core.Users.{Engine, V2Core, AddUsersParams, add_users, del_users}
use zicnode.Core.Users.Deleted.{IsDeleted, del_users-IsDeleted}
use zicnode.Dispatcher.Link.{ManagedWriter, LinkManager, source}
use zicnode.Dispatcher.Table.Drain.{IsValid}
use zicnode.Core.Users.Known.{IsKnown, add_users-IsKnown}

abbrev engine : Engine (List String)
engine = record {
  has_user_manager = λ tag s. some s;
  accepts = λ u. some u;
  add_user = λ tag u s. some (u.email ∷ s);
  remove_user = λ tag email s. some [];
}

abbrev writer : ManagedWriter
writer = record { id = 1; writer = 10; manager = 0 }

abbrev manager : LinkManager
manager = record { links = (1, (writer, source 11)) ∷ [] }

abbrev core : V2Core (List String)
core = record {
  engine = "n|a" ∷ [];
  uid_map = ("n|a", pos 7) ∷ [];
  dispatcher = record {
    counter =
        (
          "n",
          record {
            table = ("n|a", 0) ∷ [];
            heap = (0, record { up_counter = pos 5; down_counter = pos 6 }) ∷ [];
            next = 1;
          },
        )
        ∷ [];
    link_managers = ("n|a", 0) ∷ [];
    managers = (0, manager) ∷ [];
    next = 1;
  };
  events = [];
}

abbrev first : UserInfo
first = record { id = pos 7; uuid = "a"; speed_limit = pos 0; device_limit = pos 0 }

abbrev long : UserInfo
long = record {
  id = pos 8;
  uuid = "b831381d-6324-4d53-ad4f-8cda48b30811";
  speed_limit = pos 0;
  device_limit = pos 0;
}

deletes : (del_users engine (first ∷ []) "n" core).1 ≡ none
unfolding del_users
deletes = refl

core-IsValid : IsValid core.dispatcher
unfolding load
core-IsValid = record { distinct = (refl, tt); owned = ((manager, refl, (refl, tt)), tt, tt) }

del_users-IsDeleted_example :
    IsDeleted "n" (first ∷ []) core (del_users engine (first ∷ []) "n" core).0
del_users-IsDeleted_example = del_users-IsDeleted engine (first ∷ []) "n" core core-IsValid deletes

abbrev params : AddUsersParams
params = record {
  tag = "n";
  users = long ∷ [];
  node_type = "shadowsocks";
  flow = "";
  cipher = "2022-blake3-aes-128-gcm";
  server_key = "key";
}

add_users-IsKnown_example : let r = add_users engine params core in IsKnown params "a" core r.0 r.1
add_users-IsKnown_example = add_users-IsKnown engine params "a" core
