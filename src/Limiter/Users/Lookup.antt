-- ===== src/Limiter/Users/Lookup.antt =====
-- limiter/limiter.go, `UpdateUser`: what is known of a user afterwards, on every combination of the
-- three lists.
use zicnode.Prelude.{
  Bool, true, false, ◌||◌, String, ◌≡◌, refl, ap, ◌∙◌, Option, none, some, List, [], ◌∷◌, ℤ, Map,
  load, each, arith, load-store, load-delete, Option-cases, inl, inr, str_iff, if◌then◌else◌, ◌==◌,
  string_key, int_key,
}
use zicnode.Format.{user_tag, user_tag-injective}
use zicnode.Panel.User.{UserInfo}
use zicnode.Limiter.State.{Limiter, UserLimitInfo, unknown_user}
use zicnode.Limiter.Check.{check_limit}
use zicnode.Limiter.Users.{
  limit_info_of, delete_user, modify_info, modify_bucket, modify_user, add_user, update_user,
}

-- What the limiter knows of the user `uuid`.
abbrev pub info_of : String → String → Limiter → Option UserLimitInfo
info_of tag uuid l = load (user_tag tag uuid) l.user_limit_info

-- The same, as a history of one user: removed, changed, added.
abbrev pub deletes : String → UserInfo → Option UserLimitInfo → Option UserLimitInfo
deletes uuid user o = if user.uuid == uuid then none else o

abbrev pub changed : UserInfo → UserLimitInfo → UserLimitInfo
changed user u = record u { speed_limit = user.speed_limit; device_limit = user.device_limit }

abbrev pub modifies : String → UserInfo → Option UserLimitInfo → Option UserLimitInfo
modifies uuid user o =
    if user.uuid == uuid then elim o [ none ↦ none | some u ↦ some (changed user u) ] else o

abbrev pub adds : String → UserInfo → Option UserLimitInfo → Option UserLimitInfo
adds uuid user o = if user.uuid == uuid then some (limit_info_of user) else o

-- The keys of one node are told apart by the uuid.
same_key : (tag u v : String) → (user_tag tag u == user_tag tag v) ≡ (u == v)
same_key tag u v =
    ground
      (arith, str_iff (user_tag tag u) (user_tag tag v), str_iff u v, user_tag-injective tag u v)

info_of-delete_user :
    (tag uuid : String) (user : UserInfo) (l : Limiter)
    → info_of tag uuid (delete_user tag user l) ≡ deletes uuid user (info_of tag uuid l)
unfolding delete_user
info_of-delete_user tag uuid user l = ground (
  arith,
  load-delete (user_tag tag user.uuid) (user_tag tag uuid) l.user_limit_info,
  same_key tag user.uuid uuid,
)

infos-modify_bucket :
    (t : String) (limit : ℤ) (l : Limiter)
    → (modify_bucket t limit l).user_limit_info ≡ l.user_limit_info
unfolding modify_bucket
infos-modify_bucket t limit l = ground arith

load-modify_info :
    (tag uuid : String) (user : UserInfo) (infos : Map String UserLimitInfo)
    → load (user_tag tag uuid) (modify_info (user_tag tag user.uuid) user infos)
      ≡ modifies uuid user (load (user_tag tag uuid) infos)
unfolding modify_info
load-modify_info tag uuid user infos = elim (Option-cases (load (user_tag tag user.uuid) infos)) [
  | inl e ↦ ground (arith, str_iff user.uuid uuid)
  | inr (u, e) ↦ ground (
    arith,
    str_iff user.uuid uuid,
    same_key tag user.uuid uuid,
    load-store (user_tag tag user.uuid) (user_tag tag uuid) (changed user u) infos,
  )
]

info_of-modify_user :
    (tag uuid : String) (user : UserInfo) (l : Limiter)
    → info_of tag uuid (modify_user tag user l) ≡ modifies uuid user (info_of tag uuid l)
unfolding modify_user
info_of-modify_user tag uuid user l =
    ap (load (user_tag tag uuid)) (infos-modify_bucket _ _ _)
    ∙ load-modify_info tag uuid user l.user_limit_info

pub info_of-add_user :
    (tag uuid : String) (user : UserInfo) (l : Limiter)
    → info_of tag uuid (add_user tag user l) ≡ adds uuid user (info_of tag uuid l)
unfolding add_user
info_of-add_user tag uuid user l = ground (
  arith,
  load-store (user_tag tag user.uuid) (user_tag tag uuid) (limit_info_of user) l.user_limit_info,
  same_key tag user.uuid uuid,
)

-- A loop over the limiter is a loop over what is known of one user.
pub each-info_of :
    (tag uuid : String) (f : UserInfo → Limiter → Limiter)
    (g : UserInfo → Option UserLimitInfo → Option UserLimitInfo)
    → ((x : UserInfo) (l : Limiter) → info_of tag uuid (f x l) ≡ g x (info_of tag uuid l))
    → (xs : List UserInfo) (l : Limiter)
    → info_of tag uuid (each f xs l) ≡ each g xs (info_of tag uuid l)
unfolding each
each-info_of tag uuid f g h [] l = refl
each-info_of tag uuid f g h (x ∷ xs) l =
    each-info_of tag uuid f g h xs (f x l) ∙ ap (each g xs) (h x l)

-- After an update the limiter knows of each user what the user's own history says: the deletions,
-- then the modifications, then the additions that name its uuid; other users do not matter.
pub info_of-update_user :
    (tag uuid : String) (added deleted modified : List UserInfo) (l : Limiter)
    → info_of tag uuid (update_user tag added deleted modified l)
      ≡ each
          (adds uuid)
          added
          (each (modifies uuid) modified (each (deletes uuid) deleted (info_of tag uuid l)))
unfolding update_user
info_of-update_user tag uuid added deleted modified l =
    each-info_of tag uuid _ _ (info_of-add_user tag uuid) added _
    ∙ ap (each (adds uuid) added) (
        each-info_of tag uuid _ _ (info_of-modify_user tag uuid) modified _
        ∙ ap (each (modifies uuid) modified)
            (each-info_of tag uuid _ _ (info_of-delete_user tag uuid) deleted l))

abbrev pub mentions : String → List UserInfo → Bool
mentions uuid [] = false
mentions uuid (x ∷ xs) = x.uuid == uuid || mentions uuid xs

each-deletes-none : (uuid : String) (xs : List UserInfo) → each (deletes uuid) xs none ≡ none
unfolding each
each-deletes-none uuid [] = refl
each-deletes-none uuid (x ∷ xs) = ground (arith, each-deletes-none uuid xs)

each-deletes :
    (uuid : String) (xs : List UserInfo) (o : Option UserLimitInfo)
    → mentions uuid xs ≡ true
    → each (deletes uuid) xs o ≡ none
unfolding each
each-deletes uuid [] o h = cc
each-deletes uuid (x ∷ xs) o h = ground (arith, each-deletes uuid xs o, each-deletes-none uuid xs)

each-modifies-none : (uuid : String) (xs : List UserInfo) → each (modifies uuid) xs none ≡ none
unfolding each
each-modifies-none uuid [] = refl
each-modifies-none uuid (x ∷ xs) = ground (arith, each-modifies-none uuid xs)

each-adds_other :
    (uuid : String) (xs : List UserInfo) (o : Option UserLimitInfo)
    → mentions uuid xs ≡ false
    → each (adds uuid) xs o ≡ o
unfolding each
each-adds_other uuid [] o h = refl
each-adds_other uuid (x ∷ xs) o h = ground (arith, each-adds_other uuid xs o)

-- A user who is deleted and not added again is refused from then on as unknown, whatever is
-- modified.
pub update_user-deleted :
    (tag uuid ip : String) (now : ℤ) (b : Bool) (added deleted modified : List UserInfo)
    (l : Limiter)
    → mentions uuid deleted ≡ true
    → mentions uuid added ≡ false
    → let answer =
        (check_limit now (user_tag tag uuid) ip b (update_user tag added deleted modified l)).1 in
      (answer.reject ≡ true) × (answer.info.reason ≡ unknown_user)
unfolding check_limit
update_user-deleted tag uuid ip now b added deleted modified l gone out =
    let e : info_of tag uuid (update_user tag added deleted modified l) ≡ none =
      info_of-update_user tag uuid added deleted modified l
      ∙ each-adds_other uuid added _ out
      ∙ ap (each (modifies uuid) modified) (each-deletes uuid deleted _ gone)
      ∙ each-modifies-none uuid modified in
    rw (e, check_limit) (refl, refl)
