-- ===== src/Core/Users/Known.antt =====
-- core/user.go, `AddUsers`: the uids that the wrapper knows afterwards, and the number it returns.
use zicnode.Prelude.{
  ℕ, String, ◌≡◌, refl, Option, none, some, inl, inr, ◌⊎◌, List, [], ◌∷◌, ℤ, Map, load, store, each,
  length, string_key, str_iff, arith, load-store,
}
use zicnode.Format.{user_tag, user_tag-injective}
use zicnode.Panel.User.{UserInfo}
use zicnode.Panel.Search.{last_of}
use zicnode.Core.Account.{
  User, build_for, build_ss_user, build_vmess_user, build_vless_user, build_trojan_user,
  build_hysteria2_user, build_tuic_user, build_any_tls_user,
}
use zicnode.Core.Account.Keys.{build_users-length}
use zicnode.Core.Users.{UserError, Engine, V2Core, AddUsersParams, set_uid, add_users}

set_uid-known :
    (tag w : String) (us : List UserInfo) (m : Map String ℤ)
    → load (user_tag tag w) (each (set_uid tag) us m)
      ≡ elim (last_of w us) [ none ↦ load (user_tag tag w) m | some u ↦ some u.id ]
unfolding each set_uid
set_uid-known tag w [] m = refl
set_uid-known tag w (u ∷ us) m = ground (
  arith,
  set_uid-known tag w us (store (user_tag tag u.uuid) u.id m),
  load-store (user_tag tag u.uuid) (user_tag tag w) u.id m,
  str_iff (user_tag tag u.uuid) (user_tag tag w),
  str_iff u.uuid w,
  user_tag-injective tag u.uuid w,
)

build_for-length :
    (type flow cipher server_key tag : String) (us : List UserInfo) (xs : List User)
    → build_for type flow cipher server_key tag us ≡ some (some xs)
    → length xs ≡ length us
unfolding build_for
build_for-length type flow cipher server_key tag us xs h = ground (
  arith,
  build_users-length (build_ss_user cipher server_key tag) us xs,
  build_users-length (λ u. some (build_vmess_user tag u)) us xs,
  build_users-length (λ u. some (build_vless_user flow tag u)) us xs,
  build_users-length (λ u. some (build_trojan_user tag u)) us xs,
  build_users-length (λ u. some (build_hysteria2_user tag u)) us xs,
  build_users-length (λ u. some (build_tuic_user tag u)) us xs,
  build_users-length (λ u. some (build_any_tls_user tag u)) us xs,
)

build_for-cases :
    (o : Option (Option (List User)))
    → (o ≡ none) ⊎ (o ≡ some none) ⊎ ((xs : List User) × (o ≡ some (some xs)))
build_for-cases none = inl refl
build_for-cases (some none) = inr (inl refl)
build_for-cases (some (some xs)) = inr (inr (xs, refl))

-- Of the wrapper after a call that was given `p` and answered `answer`.
pub record IsKnown {ℓ} {S : Type ℓ} (p : AddUsersParams) (w : String) (c r : V2Core S)
    (answer : ℕ × Option UserError) : Type 0 where
  pub uid :
      load (user_tag p.tag w) r.uid_map
      ≡ elim (last_of w p.users) [ none ↦ load (user_tag p.tag w) c.uid_map | some u ↦ some u.id ]
  pub dispatcher : r.dispatcher ≡ c.dispatcher
  pub added : answer.0 ≡ elim answer.1 [ none ↦ length p.users | some e ↦ 0 ]

-- Whether or not `AddUsers` succeeds, the wrapper knows the uid that the list gives each uuid last,
-- and keeps the uids of the other users of the node; the number returned is that of the users where
-- there is no error, and 0 where there is one.
pub add_users-IsKnown {ℓ} :
    {S : Type ℓ} (env : Engine S) (p : AddUsersParams) (w : String) (c : V2Core S)
    → let r = add_users env p c in IsKnown p w c r.0 r.1
unfolding add_users
add_users-IsKnown env p w c =
    let built = build_for p.node_type p.flow p.cipher p.server_key p.tag p.users in
    let known = set_uid-known p.tag w p.users c.uid_map in
    elim (build_for-cases built) [
      | inl e ↦ rw (e, add_users) ground (arith, known)
      | inr (inl e) ↦ rw (e, add_users) ground (arith, known)
      | inr (inr (xs, e)) ↦
          let n = build_for-length p.node_type p.flow p.cipher p.server_key p.tag p.users xs e in
          rw (e, add_users) ground (arith, known, n)
    ]
