-- ===== src/Panel/Search.antt =====
-- Lists of users seen as tables by uuid, the last entry of a uuid counting, as it does where the
-- code makes a map of a list.
use zicnode.Prelude.{
  String, ◌≡◌, refl, Option, none, some, List, [], ◌∷◌, ◌++◌, arith, ◌==◌, string_key,
  if◌then◌else◌,
}
use zicnode.Panel.User.{UserInfo}

abbrev pub last_of : String → List UserInfo → Option UserInfo
last_of w [] = none
last_of w (u ∷ us) = elim (last_of w us) [
  | some v ↦ some v
  | none ↦ if u.uuid == w then some u else none
]

-- No uuid stands twice.
abbrev pub Unique : List UserInfo → Type 0
Unique [] = Unit
Unique (u ∷ us) = (last_of u.uuid us ≡ none) × Unique us

pub last_of-append_one :
    (w : String) (us : List UserInfo) (u : UserInfo)
    → last_of w (us ++ u ∷ []) ≡ (if u.uuid == w then some u else last_of w us)
last_of-append_one w [] u = refl
last_of-append_one w (v ∷ us) u = ground (arith, last_of-append_one w us u)
