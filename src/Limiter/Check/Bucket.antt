-- ===== src/Limiter/Check/Bucket.antt =====
-- limiter/limiter.go, `CheckLimit`: the bucket that a connection is given.
use zicnode.Prelude.{
  Bool, true, false, String, ◌≡◌, refl, subst, sym, ◌∙◌, ◌⊎◌, inl, inr, Option, none, some, ℤ, pos,
  ◌<ℤ◌, ◌≤ℤ◌, load, trim_prefix, arith, Bool-cases, Option-cases, ltb_ℤ, string_key, nat_key,
  load-store, same_refl,
}
use zicnode.Rate.{DynamicBucket, bucket_of, get, new_dynamic_bucket}
use zicnode.Limiter.State.{Limiter, UserLimitInfo}
use zicnode.Limiter.Speed.{determine_speed_limit, byte_rate}
use zicnode.Limiter.Check.Decision.{reject-conclude}
use zicnode.Limiter.Check.{
  refresh, user_limit, alive_ips, admit, test_device, give_bucket, conclude, check_known,
  check_limit,
}

-- What a user who is allowed `limit` bytes a second is given: no bucket without a limit, the one
-- that the user has, or a new one with that rate.
abbrev pub Gives : String → ℤ → Limiter → Limiter → Option DynamicBucket → Type 0
Gives taguuid limit l l' none =
    (limit ≤ℤ pos 0) × (l'.buckets ≡ l.buckets) × (l'.speed_limiter ≡ l.speed_limiter)
Gives taguuid limit l l' (some d) =
    (pos 0 <ℤ limit)
    × (load taguuid l'.speed_limiter ≡ some d)
    × (((load taguuid l.speed_limiter ≡ some d) × (l'.buckets ≡ l.buckets))
        ⊎ ((load taguuid l.speed_limiter ≡ none) × (get d l'.buckets ≡ some (bucket_of limit))))

give_bucket-Gives :
    (taguuid : String) (limit : ℤ) (l : Limiter)
    → Gives taguuid limit l (give_bucket taguuid limit l).0 (give_bucket taguuid limit l).1
unfolding give_bucket get new_dynamic_bucket
give_bucket-Gives taguuid limit l = elim (Bool-cases (ltb_ℤ (pos 0) limit)) [
  | inl e ↦ elim (Option-cases (load taguuid l.speed_limiter)) [
    | inl f ↦
        rw (e, f)
          (
            ground arith,
            load-store taguuid taguuid l.buckets.next l.speed_limiter ∙ rw (same_refl taguuid),
            inr (
              f,
              load-store l.buckets.next l.buckets.next (bucket_of limit) l.buckets.cells
                  ∙ rw (same_refl l.buckets.next),
            ),
          )
    | inr (d, f) ↦ rw (e, f) (ground arith, f, inl (f, refl))
  ]
  | inr e ↦ rw e (ground arith, refl, refl)
]

-- The limit, in bytes a second, that holds for the connection.
abbrev pub effective_limit : ℤ → UserLimitInfo → Limiter → ℤ
effective_limit now u l = byte_rate (determine_speed_limit l.speed_limit (user_limit now u))

conclude-Gives :
    (taguuid : String) (u : UserLimitInfo) (speed alive : ℤ) (p : Limiter × Bool)
    → p.1 ≡ false
    → Gives taguuid
        (byte_rate (determine_speed_limit p.0.speed_limit speed))
        p.0
        (conclude taguuid u speed alive p).0
        (conclude taguuid u speed alive p).1.bucket
unfolding conclude
conclude-Gives taguuid u speed alive (l, true) h = cc
conclude-Gives taguuid u speed alive (l, false) h = unfold conclude in give_bucket-Gives taguuid _ l

-- The device test leaves the buckets alone.
record SameBuckets (l l' : Limiter) : Type 0 where
  same_limit : l'.speed_limit ≡ l.speed_limit
  same_buckets : l'.buckets ≡ l.buckets
  same_limiter : l'.speed_limiter ≡ l.speed_limiter

refresh-SameBuckets :
    (now : ℤ) (taguuid : String) (u : UserLimitInfo) (l : Limiter)
    → SameBuckets l (refresh now taguuid u l)
unfolding refresh
refresh-SameBuckets now taguuid u l = ground arith

admit-SameBuckets :
    (taguuid ip : String) (u : UserLimitInfo) (alive : ℤ) (l : Limiter)
    → SameBuckets l (admit taguuid ip u alive l).0
unfolding admit
admit-SameBuckets taguuid ip u alive l = ground arith

SameBuckets-trans : {l m n : Limiter} → SameBuckets l m → SameBuckets m n → SameBuckets l n
SameBuckets-trans p q = record {
  same_limit = q.same_limit ∙ p.same_limit;
  same_buckets = q.same_buckets ∙ p.same_buckets;
  same_limiter = q.same_limiter ∙ p.same_limiter;
}

Gives-SameBuckets :
    (taguuid : String) (limit : ℤ) (l m l' : Limiter) (o : Option DynamicBucket)
    → SameBuckets l m
    → Gives taguuid limit m l' o
    → Gives taguuid limit l l' o
Gives-SameBuckets taguuid limit l m l' none s g = ground arith
Gives-SameBuckets taguuid limit l m l' (some d) s g = ground arith

bucket_known :
    (now : ℤ) (taguuid ip : String) (b : Bool) (u : UserLimitInfo) (l : Limiter)
    → (check_known now taguuid ip b u l).1.reject ≡ false
    → Gives taguuid
        (effective_limit now u l)
        l
        (check_known now taguuid ip b u l).0
        (check_known now taguuid ip b u l).1.bucket
unfolding check_known
bucket_known now taguuid ip b u l h =
    let l' = refresh now taguuid u l in
    let alive = alive_ips u.uid l' in
    let p = test_device taguuid ip b u l' in
    let r : p.1 ≡ false = sym (reject-conclude taguuid u (user_limit now u) alive p) ∙ h in
    let same : SameBuckets l p.0 =
      SameBuckets-trans (refresh-SameBuckets now taguuid u l)
        (ground (arith, admit-SameBuckets taguuid ip u alive l')) in
    let speed = user_limit now u in
    let done = conclude taguuid u speed alive p in
    subst (λ s. Gives taguuid (byte_rate (determine_speed_limit s speed)) l done.0 done.1.bucket)
      same.same_limit
      (Gives-SameBuckets taguuid (byte_rate (determine_speed_limit p.0.speed_limit speed)) l p.0
        done.0 done.1.bucket same (conclude-Gives taguuid u speed alive p r))

-- A connection of a known user that is let in is throttled exactly if its effective limit is
-- positive: then it shares the bucket that the user has, or gets a new one of that rate, which the
-- user has from then on; without a limit it gets none, and the buckets stay as they are.
pub check_limit-bucket :
    (now : ℤ) (taguuid ip : String) (b : Bool) (u : UserLimitInfo) (l : Limiter)
    → load taguuid l.user_limit_info ≡ some u
    → (check_limit now taguuid ip b l).1.reject ≡ false
    → Gives taguuid
        (effective_limit now u l)
        l
        (check_limit now taguuid ip b l).0
        (check_limit now taguuid ip b l).1.bucket
unfolding check_limit
check_limit-bucket now taguuid ip b u l e h =
    rw (e, check_limit)
      (bucket_known now taguuid (trim_prefix ip "::ffff:") b u l (rw (e, check_limit) at h))
