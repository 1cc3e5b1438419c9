-- ===== src/Node/Diff.antt =====
-- node/user.go, `compareUserList`: how the new list of users differs from the old one.
pub mod Exact
use zicnode.Prelude.{
  Bool, not, ◌||◌, String, Option, none, some, List, [], ◌∷◌, ◌++◌, Map, load, store, delete, each,
  ◌==◌, string_key, int_key, if◌then◌else◌,
}
use zicnode.Panel.User.{UserInfo}

pub record Diff : Type 0 where
  pub deleted : List UserInfo
  pub added : List UserInfo
  pub modified : List UserInfo

-- oldMap
unfoldable pub index : List UserInfo → Map String UserInfo
index old = each (λ (u : UserInfo) (m : Map String UserInfo). store u.uuid u m) old []

unfoldable pub differs : UserInfo → UserInfo → Bool
differs o u = not (o.speed_limit == u.speed_limit) || not (o.device_limit == u.device_limit)

-- The state of the loop over the new list: what is left of `oldMap`, and the lists so far.
pub record Scan : Type 0 where
  pub rest : Map String UserInfo
  pub added : List UserInfo
  pub modified : List UserInfo

unfoldable pub scan : UserInfo → Scan → Scan
unfolding differs
scan u s = elim (load u.uuid s.rest) [
  | none ↦ record s { added = s.added ++ u ∷ [] }
  | some o ↦ record s {
    modified = if differs o u then s.modified ++ u ∷ [] else s.modified;
    rest = delete u.uuid s.rest;
  }
]

unfoldable pub values : Map String UserInfo → List UserInfo
values [] = []
values ((k, u) ∷ m) = u ∷ values m

unfoldable pub compare_user_list : List UserInfo → List UserInfo → Diff
unfolding index scan values
compare_user_list old new =
    let s = each scan new (record { rest = index old; added = []; modified = [] }) in
    record { deleted = values s.rest; added = s.added; modified = s.modified }
