-- ===== src/Limiter/Users/Throttle.antt =====
-- limiter/limiter.go, `UpdateUser`: the rate of a user whose limits are modified.
use zicnode.Prelude.{
  ltb_ℤ, String, ◌≡◌, refl, ◌∙◌, ◌⊎◌, inl, inr, none, some, ℤ, pos, ◌<ℤ◌, ◌≤ℤ◌, load, arith,
  load-store, load-delete, Bool-cases, Option-cases, same_refl, string_key, nat_key,
}
use zicnode.Format.{user_tag}
use zicnode.Panel.User.{UserInfo}
use zicnode.Rate.{DynamicBucket, bucket_of, get, update, new_dynamic_bucket}
use zicnode.Limiter.Speed.{determine_speed_limit, byte_rate}
use zicnode.Limiter.State.{Limiter}
use zicnode.Limiter.Users.{modify_bucket, modify_user}

-- The bucket of the user `t` afterwards has the rate `limit`; it is the one from before, if there
-- was one. With no limit the user has no bucket, and the one from before keeps its rate.
abbrev pub Throttles : String → ℤ → Limiter → Limiter → Type 0
Throttles t limit l l' =
    ((pos 0 <ℤ limit)
      × ((d : DynamicBucket) × (load t l'.speed_limiter ≡ some d)
          × (get d l'.buckets ≡ some (bucket_of limit))
          × ((load t l.speed_limiter ≡ some d) ⊎ (load t l.speed_limiter ≡ none))))
    ⊎ ((limit ≤ℤ pos 0) × (load t l'.speed_limiter ≡ none) × (l'.buckets ≡ l.buckets))

modify_bucket-Throttles :
    (t : String) (limit : ℤ) (l : Limiter) → Throttles t limit l (modify_bucket t limit l)
unfolding modify_bucket get update new_dynamic_bucket
modify_bucket-Throttles t limit l = elim (Bool-cases (ltb_ℤ (pos 0) limit)) [
  | inl p ↦ elim (Option-cases (load t l.speed_limiter)) [
    | inl e ↦
        rw (p, e)
          (inl (
            ground arith,
            (
              l.buckets.next,
              load-store t t l.buckets.next l.speed_limiter ∙ rw (same_refl t),
              load-store l.buckets.next l.buckets.next (bucket_of limit) l.buckets.cells
                  ∙ rw (same_refl l.buckets.next),
              inr refl,
            ),
          ))
    | inr (d, e) ↦
        rw (p, e)
          (inl (
            ground arith,
            (d, e, load-store d d (bucket_of limit) l.buckets.cells ∙ rw (same_refl d), inl refl),
          ))
  ]
  | inr n ↦ rw n (inr (ground arith, load-delete t t l.speed_limiter ∙ rw (same_refl t), refl))
]

-- A modified user's bucket is set to the rate of the new limit in place, or made, or dropped.
pub modify_user-Throttles :
    (tag : String) (user : UserInfo) (l : Limiter)
    → Throttles
        (user_tag tag user.uuid)
        (byte_rate (determine_speed_limit l.speed_limit user.speed_limit))
        l
        (modify_user tag user l)
unfolding modify_user
modify_user-Throttles tag user l = modify_bucket-Throttles _ _ _
