-- ===== src/Node/Sync.antt =====
-- node/task.go, the end of `nodeInfoMonitor`: the difference of two lists, applied to the limiter,
-- takes it from the one list to the other.
use zicnode.Prelude.{
  String, ◌≡◌, refl, ap, ◌∙◌, Option, none, some, is_some, List, [], ◌∷◌, ℤ, pos, Map, load, each,
  string_key, int_key, int_beq_iff, if◌then◌else◌, arith,
}
use zicnode.Panel.User.{UserInfo}
use zicnode.Panel.Search.{last_of, Unique}
use zicnode.Limiter.State.{Limiter, UserLimitInfo}
use zicnode.Limiter.Users.{limit_info_of, add_user, update_user}
use zicnode.Limiter.Users.Lookup.{
  info_of, deletes, changed, modifies, adds, info_of-update_user, info_of-add_user, each-info_of,
}
use zicnode.Limiter.Registry.{register_user, new_limiter, fresh}
use zicnode.Node.Diff.{Diff, differs, compare_user_list}
use zicnode.Node.Diff.Exact.{IsDiff, compare_user_list-IsDiff, without, changed_of}

each-deletes :
    (w : String) (xs : List UserInfo) (o : Option UserLimitInfo)
    → each (deletes w) xs o ≡ (if is_some (last_of w xs) then none else o)
unfolding each
each-deletes w [] o = refl
each-deletes w (u ∷ us) o = each-deletes w us _ ∙ ground arith

each-modifies :
    (w : String) (xs : List UserInfo) (o : Option UserLimitInfo)
    → each (modifies w) xs o ≡ elim (last_of w xs) [
      | none ↦ o
      | some u ↦ elim o [ none ↦ none | some i ↦ some (changed u i) ]
    ]
unfolding each
each-modifies w [] o = refl
each-modifies w (u ∷ us) o = each-modifies w us _ ∙ ground arith

each-adds :
    (w : String) (xs : List UserInfo) (o : Option UserLimitInfo)
    → each (adds w) xs o ≡ elim (last_of w xs) [ none ↦ o | some u ↦ some (limit_info_of u) ]
unfolding each
each-adds w [] o = refl
each-adds w (u ∷ us) o = each-adds w us _ ∙ ground arith

-- The limits that the limiter knows of a user, and those that a list gives.
abbrev pub known_limits : Option UserLimitInfo → Option (ℤ × ℤ)
known_limits none = none
known_limits (some i) = some (i.speed_limit, i.device_limit)

abbrev pub listed_limits : Option UserInfo → Option (ℤ × ℤ)
listed_limits none = none
listed_limits (some u) = some (u.speed_limit, u.device_limit)

-- The limiter knows exactly the users of the list, with their limits.
pub record InSync (tag : String) (users : List UserInfo) (l : Limiter) : Type 0 where
  pub at : (w : String) → known_limits (info_of tag w l) ≡ listed_limits (last_of w users)

limits-limit_info_of :
    (u : UserInfo) → known_limits (some (limit_info_of u)) ≡ listed_limits (some u)
unfolding limit_info_of
limits-limit_info_of u =
    ground (arith, int_beq_iff u.speed_limit (pos 0), int_beq_iff u.device_limit (pos 0))

-- The three loops, for one user.
abbrev apply_diff :
    Option UserInfo
    → Option UserInfo
    → Option UserInfo
    → Option UserLimitInfo
    → Option UserLimitInfo
apply_diff deleted added modified i =
    let kept : Option UserLimitInfo = if is_some deleted then none else i in
    let changes : Option UserLimitInfo = elim modified [
      | none ↦ kept
      | some u ↦ elim kept [ none ↦ none | some k ↦ some (changed u k) ]
    ] in
    elim added [ none ↦ changes | some u ↦ some (limit_info_of u) ]

sync_one :
    (o n : Option UserInfo) (i : Option UserLimitInfo)
    → known_limits i ≡ listed_limits o
    → known_limits (apply_diff (without o n) (without n o) (changed_of o n) i) ≡ listed_limits n
unfolding differs
sync_one none none i h = h
sync_one none (some u) i h = limits-limit_info_of u
sync_one (some o) none i h = refl
sync_one (some o) (some u) none h = cc
sync_one (some o) (some u) (some i) h =
    ground
      (arith, h, int_beq_iff o.speed_limit u.speed_limit, int_beq_iff o.device_limit u.device_limit)

info_of-update_diff :
    (tag w : String) (d : Diff) (l : Limiter)
    → info_of tag w (update_user tag d.added d.deleted d.modified l)
      ≡ apply_diff
          (last_of w d.deleted)
          (last_of w d.added)
          (last_of w d.modified)
          (info_of tag w l)
info_of-update_diff tag w d l =
    info_of-update_user tag w d.added d.deleted d.modified l
    ∙ each-adds w d.added _
    ∙ ground (
      arith,
      each-modifies w d.modified (each (deletes w) d.deleted (info_of tag w l)),
      each-deletes w d.deleted (info_of tag w l),
    )

-- If the limiter knows the old list, then after the update with the difference of the lists it
-- knows the new one: every user of the new list with its limits, and nobody else.
pub update_user-InSync :
    (tag : String) (old new : List UserInfo) (l : Limiter)
    → Unique new
    → InSync tag old l
    → let d = compare_user_list old new in
      InSync tag new (update_user tag d.added d.deleted d.modified l)
update_user-InSync tag old new l h s = record {
  at = λ w.
      ap known_limits (info_of-update_diff tag w d l)
      ∙ ground (
        arith,
        exact.removed w,
        exact.arrived w,
        exact.altered w,
        sync_one (last_of w old) (last_of w new) (info_of tag w l) (s.at w),
      );
}
  where
    d : Diff
    d = compare_user_list old new

    exact : IsDiff old new d
    exact = compare_user_list-IsDiff old new h

listed_start :
    (o : Option UserInfo)
    → known_limits (elim o [ none ↦ none | some u ↦ some (limit_info_of u) ]) ≡ listed_limits o
listed_start none = refl
listed_start (some u) = limits-limit_info_of u

-- The limiter that a node starts with knows the list that it was made of.
pub new_limiter-InSync :
    (node_type tag : String) (users : List UserInfo) (alive : Map ℤ ℤ)
    → InSync tag users (new_limiter node_type tag users alive)
unfolding new_limiter register_user add_user load
new_limiter-InSync node_type tag users alive = record {
  at = λ w.
      ap known_limits (
        each-info_of tag w (register_user tag) (adds w) (info_of-add_user tag w) users
          (fresh node_type alive)
        ∙ each-adds w users none)
      ∙ listed_start (last_of w users);
}
