-- ===== src/Node/Diff/Exact.antt =====
-- node/user.go, `compareUserList`: the three lists are exactly what was removed, is new and
-- changed.
use zicnode.Prelude.{
  String, ◌≡◌, refl, ◌∙◌, Option, none, some, is_some, List, [], ◌∷◌, Map, load, store, delete,
  each, string_key, int_key, if◌then◌else◌, arith, str_iff, load-store, load-delete, Distinct,
  store-Distinct, delete-Distinct, each_inv,
}
use zicnode.Panel.User.{UserInfo}
use zicnode.Panel.Search.{last_of, Unique, last_of-append_one}
use zicnode.Node.Diff.{Diff, index, differs, Scan, scan, values, compare_user_list}

-- What the lists say of one uuid after the loop.
pub record Scanned (w : String) (new : List UserInfo) (s r : Scan) : Type 0 where
  pub left : load w r.rest ≡ (if is_some (last_of w new) then none else load w s.rest)
  pub now_added : last_of w r.added ≡ elim (last_of w new) [
    | none ↦ last_of w s.added
    | some u ↦ if is_some (load w s.rest) then last_of w s.added else some u
  ]
  pub now_modified : last_of w r.modified ≡ elim (last_of w new) [
    | none ↦ last_of w s.modified
    | some u ↦ elim (load w s.rest) [
      | none ↦ last_of w s.modified
      | some o ↦ if differs o u then some u else last_of w s.modified
    ]
  ]

scan-Scanned : (w : String) (u : UserInfo) (s : Scan) → Scanned w (u ∷ []) s (scan u s)
unfolding scan
scan-Scanned w u s = ground (
  arith,
  str_iff u.uuid w,
  load-delete u.uuid w s.rest,
  last_of-append_one w s.added u,
  last_of-append_one w s.modified u,
)

each-Scanned :
    (w : String) (new : List UserInfo) (s : Scan) → Unique new → Scanned w new s (each scan new s)
unfolding each
each-Scanned w [] s h = ground arith
each-Scanned w (u ∷ us) s h =
    let one = scan-Scanned w u s in
    let rest = each-Scanned w us (scan u s) h.1 in ground (arith, str_iff u.uuid w, one, rest)

-- The keys are the uuids, each once.
abbrev Keyed : Map String UserInfo → Type 0
Keyed [] = Unit
Keyed ((k, u) ∷ m) = (k ≡ u.uuid) × Keyed m

store-Keyed : (u : UserInfo) (m : Map String UserInfo) → Keyed m → Keyed (store u.uuid u m)
unfolding store
store-Keyed u [] h = (refl, tt)
store-Keyed u ((k, v) ∷ m) h = ground (arith, str_iff k u.uuid, store-Keyed u m h.1)

delete-Keyed : (k : String) (m : Map String UserInfo) → Keyed m → Keyed (delete k m)
unfolding delete
delete-Keyed k [] h = tt
delete-Keyed k ((j, v) ∷ m) h = ground (arith, delete-Keyed k m h.1)

last_of-values :
    (w : String) (m : Map String UserInfo) → Keyed m → Distinct m → last_of w (values m) ≡ load w m
unfolding values load
last_of-values w [] h d = refl
last_of-values w ((k, u) ∷ m) h d =
    ground (arith, str_iff k w, str_iff u.uuid w, last_of-values w m h.1 d.1)

record IsTable (m : Map String UserInfo) : Type 0 where
  keyed : Keyed m
  distinct : Distinct m

scan-IsTable : (u : UserInfo) (s : Scan) → IsTable s.rest → IsTable (scan u s).rest
unfolding scan
scan-IsTable u s t =
    ground (arith, delete-Keyed u.uuid s.rest t.keyed, delete-Distinct u.uuid s.rest t.distinct)

index-IsTable : (old : List UserInfo) → IsTable (index old)
unfolding index
index-IsTable old =
    each_inv IsTable _
      (λ u m t. record {
        keyed = store-Keyed u m t.keyed;
        distinct = store-Distinct u.uuid u m t.distinct;
      })
      old [] (record { keyed = tt; distinct = tt })

each-store :
    (w : String) (old : List UserInfo) (m : Map String UserInfo)
    → load w (each (λ (u : UserInfo) (n : Map String UserInfo). store u.uuid u n) old m)
      ≡ elim (last_of w old) [ none ↦ load w m | some u ↦ some u ]
unfolding each
each-store w [] m = refl
each-store w (u ∷ us) m =
    each-store w us _ ∙ ground (arith, str_iff u.uuid w, load-store u.uuid w u m)

load-index : (w : String) (old : List UserInfo) → load w (index old) ≡ last_of w old
unfolding index load
load-index w old = each-store w old [] ∙ ground arith

-- The last entry of a list for `w`, of those that the other list lacks or has.
abbrev pub without : Option UserInfo → Option UserInfo → Option UserInfo
without o other = if is_some other then none else o

abbrev pub changed_of : Option UserInfo → Option UserInfo → Option UserInfo
changed_of none new = none
changed_of (some o) none = none
changed_of (some o) (some u) = if differs o u then some u else none

pub record IsDiff (old new : List UserInfo) (d : Diff) : Type 0 where
  pub removed : (w : String) → last_of w d.deleted ≡ without (last_of w old) (last_of w new)
  pub arrived : (w : String) → last_of w d.added ≡ without (last_of w new) (last_of w old)
  pub altered : (w : String) → last_of w d.modified ≡ changed_of (last_of w old) (last_of w new)

-- Where the new list has no uuid twice, `deleted` has exactly the old users that the new list
-- lacks, `added` the new users that the old list lacks, and `modified` the users of both whose
-- speed or device limit differs, each with the new data.
pub compare_user_list-IsDiff :
    (old new : List UserInfo) → Unique new → IsDiff old new (compare_user_list old new)
unfolding compare_user_list
compare_user_list-IsDiff old new h = record {
  removed = λ w.
      last_of-values w _ final.keyed final.distinct
      ∙ ground (arith, load-index w old, each-Scanned w new start h);
  arrived = λ w. ground (arith, load-index w old, each-Scanned w new start h);
  altered = λ w. ground (arith, load-index w old, each-Scanned w new start h);
}
  where
    start : Scan
    start = record { rest = index old; added = []; modified = [] }

    final : IsTable (each scan new start).rest
    final = each_inv (λ s. IsTable s.rest) scan scan-IsTable new start (index-IsTable old)
