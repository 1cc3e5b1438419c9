-- ===== src/Limiter/Kept.antt =====
-- limiter/limiter.go: every operation keeps `IsValid`, and so does any history of operations.
use zicnode.Prelude.{
  Bool, true, false, String, inl, inr, Option, none, some, List, Map, ℤ, load, arith, Option-cases,
  trim_prefix, string_key, nat_key, each, each_inv,
}
use zicnode.Format.{user_tag}
use zicnode.Panel.User.{UserInfo}
use zicnode.Limiter.State.{Limiter, UserLimitInfo}
use zicnode.Limiter.Buckets.{Owns-make, Owns-update, Owns-delete, IsValid}
use zicnode.Limiter.Check.{
  refresh, user_limit, alive_ips, admit, give_bucket, conclude, test_device, check_known,
  check_limit,
}
use zicnode.Limiter.Users.{
  delete_user, modify_bucket, modify_user, add_user, update_user, update_dynamic_speed_limit,
}
use zicnode.Limiter.Online.{get_online_device}
use zicnode.Limiter.Registry.{register_user, new_limiter, fresh}

refresh-IsValid :
    (now : ℤ) (t : String) (u : UserLimitInfo) (l : Limiter)
    → IsValid l
    → IsValid (refresh now t u l)
unfolding refresh
refresh-IsValid now t u l v = ground arith

admit-IsValid :
    (t ip : String) (u : UserLimitInfo) (alive : ℤ) (l : Limiter)
    → IsValid l
    → IsValid (admit t ip u alive l).0
unfolding admit
admit-IsValid t ip u alive l v = ground arith

give_bucket-IsValid :
    (t : String) (limit : ℤ) (l : Limiter) → IsValid l → IsValid (give_bucket t limit l).0
unfolding give_bucket
give_bucket-IsValid t limit l v = ground (arith, Owns-make l.speed_limiter l.buckets v t limit)

conclude-IsValid :
    (t : String) (u : UserLimitInfo) (speed alive : ℤ) (p : Limiter × Bool)
    → IsValid p.0
    → IsValid (conclude t u speed alive p).0
unfolding conclude
conclude-IsValid t u speed alive (l, true) v = v
conclude-IsValid t u speed alive (l, false) v = give_bucket-IsValid t _ l v

known-IsValid :
    (now : ℤ) (t ip : String) (b : Bool) (u : UserLimitInfo) (l : Limiter)
    → IsValid l
    → IsValid (check_known now t ip b u l).0
unfolding check_known
known-IsValid now t ip b u l v =
    let l' = refresh now t u l in
    let v' = refresh-IsValid now t u l v in
    conclude-IsValid t u (user_limit now u) (alive_ips u.uid l') (test_device t ip b u l')
      (ground (arith, v', admit-IsValid t ip u (alive_ips u.uid l') l'))

check_limit-IsValid :
    (now : ℤ) (t ip : String) (b : Bool) (l : Limiter)
    → IsValid l
    → IsValid (check_limit now t ip b l).0
unfolding check_limit
check_limit-IsValid now t ip b l v = elim (Option-cases (load t l.user_limit_info)) [
  | inl e ↦ rw (e, check_limit) v
  | inr (u, e) ↦ rw (e, check_limit) (known-IsValid now t (trim_prefix ip "::ffff:") b u l v)
]

delete_user-IsValid :
    (tag : String) (user : UserInfo) (l : Limiter) → IsValid l → IsValid (delete_user tag user l)
unfolding delete_user
delete_user-IsValid tag user l v = Owns-delete l.speed_limiter l.buckets v (user_tag tag user.uuid)

modify_bucket-IsValid :
    (t : String) (limit : ℤ) (l : Limiter) → IsValid l → IsValid (modify_bucket t limit l)
unfolding modify_bucket
modify_bucket-IsValid t limit l v = elim (Option-cases (load t l.speed_limiter)) [
  | inl e ↦ ground (
    arith,
    Owns-make l.speed_limiter l.buckets v t limit,
    Owns-delete l.speed_limiter l.buckets v t,
  )
  | inr (d, e) ↦ ground (
    arith,
    Owns-update l.speed_limiter l.buckets v d limit,
    Owns-delete l.speed_limiter l.buckets v t,
  )
]

modify_user-IsValid :
    (tag : String) (user : UserInfo) (l : Limiter) → IsValid l → IsValid (modify_user tag user l)
unfolding modify_user
modify_user-IsValid tag user l v = modify_bucket-IsValid _ _ _ v

add_user-IsValid :
    (tag : String) (user : UserInfo) (l : Limiter) → IsValid l → IsValid (add_user tag user l)
unfolding add_user
add_user-IsValid tag user l v = v

update_user-IsValid :
    (tag : String) (added deleted modified : List UserInfo) (l : Limiter)
    → IsValid l
    → IsValid (update_user tag added deleted modified l)
unfolding update_user
update_user-IsValid tag added deleted modified l v =
    each_inv IsValid (add_user tag) (add_user-IsValid tag) added _ (
      each_inv IsValid (modify_user tag) (modify_user-IsValid tag) modified _
        (each_inv IsValid (delete_user tag) (delete_user-IsValid tag) deleted l v))

get_online_device-IsValid : (l : Limiter) → IsValid l → IsValid (get_online_device l).0
unfolding get_online_device
get_online_device-IsValid l v = v

-- What the rest of the program does to a limiter.
pub data Call : Type 0 where
  checks : ℤ → String → String → Bool → Call
  updates : String → List UserInfo → List UserInfo → List UserInfo → Call
  limits : String → String → ℤ → ℤ → Call
  sweeps : Call
  counts : Map ℤ ℤ → Call

pub after : Limiter → Option Limiter → Limiter
after l none = l
after l (some l') = l'

pub step : Call → Limiter → Limiter
unfolding after
step (checks now t ip b) l = (check_limit now t ip b l).0
step (updates tag added deleted modified) l = update_user tag added deleted modified l
step (limits tag uuid limit expire) l = after l (update_dynamic_speed_limit tag uuid limit expire l)
step sweeps l = (get_online_device l).0
step (counts alive_list) l = record l { alive_list = alive_list }

step-IsValid : (c : Call) (l : Limiter) → IsValid l → IsValid (step c l)
unfolding step update_dynamic_speed_limit
step-IsValid (checks now t ip b) l v = check_limit-IsValid now t ip b l v
step-IsValid (updates tag added deleted modified) l v =
    update_user-IsValid tag added deleted modified l v
step-IsValid (limits tag uuid limit expire) l v = ground arith
step-IsValid sweeps l v = get_online_device-IsValid l v
step-IsValid (counts alive_list) l v = v

new_limiter-IsValid :
    (node_type tag : String) (users : List UserInfo) (alive : Map ℤ ℤ)
    → IsValid (new_limiter node_type tag users alive)
unfolding new_limiter register_user load
new_limiter-IsValid node_type tag users alive =
    each_inv IsValid (register_user tag) (λ u l v. v) users (fresh node_type alive)
      (record { old = λ t d e. cc; made = λ t d e. cc; separate = λ s t d e f. cc })

-- Whatever is done to the limiter of a node, each bucket that it holds was made with a positive
-- rate, is the bucket of one user alone, and is still in the heap.
pub run-IsValid :
    (node_type tag : String) (users : List UserInfo) (alive : Map ℤ ℤ) (calls : List Call)
    → IsValid (each step calls (new_limiter node_type tag users alive))
run-IsValid node_type tag users alive calls =
    each_inv IsValid step step-IsValid calls _ (new_limiter-IsValid node_type tag users alive)
