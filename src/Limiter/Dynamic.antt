-- ===== src/Limiter/Dynamic.antt =====
-- limiter/limiter.go: what `UpdateDynamicSpeedLimit` and the end of a dynamic limit do to later
-- checks.
use zicnode.Prelude.{
  Bool, true, false, String, ◌≡◌, ◌≢◌, refl, ap, ◌∙◌, Option, none, some, ℤ, pos, ◌<ℤ◌, load, arith,
  load-delete, str_iff, string_key, int_key, int_beq_iff, trim_prefix,
}
use zicnode.Format.{user_tag}
use zicnode.Rate.{DynamicBucket, get}
use zicnode.Limiter.State.{Limiter, UserLimitInfo, unknown_user}
use zicnode.Limiter.Users.{update_dynamic_speed_limit}
use zicnode.Limiter.Check.{
  refresh, user_limit, alive_ips, admit, test_device, conclude, check_known, check_limit,
}
use zicnode.Limiter.Check.Bucket.{Gives, effective_limit, check_limit-bucket}

-- The device test and the bucket leave the limits of users alone.
infos-admit :
    (t ip : String) (u : UserLimitInfo) (alive : ℤ) (l : Limiter)
    → (admit t ip u alive l).0.user_limit_info ≡ l.user_limit_info
unfolding admit
infos-admit t ip u alive l = ground arith

infos-conclude :
    (t : String) (u : UserLimitInfo) (speed alive : ℤ) (p : Limiter × Bool)
    → (conclude t u speed alive p).0.user_limit_info ≡ p.0.user_limit_info
unfolding conclude
infos-conclude t u speed alive (l, true) = refl
infos-conclude t u speed alive (l, false) = ground arith

infos-check_known :
    (now : ℤ) (t ip : String) (b : Bool) (u : UserLimitInfo) (l : Limiter)
    → (check_known now t ip b u l).0.user_limit_info ≡ (refresh now t u l).user_limit_info
unfolding check_known
infos-check_known now t ip b u l =
    let l' = refresh now t u l in
    infos-conclude t u (user_limit now u) (alive_ips u.uid l') (test_device t ip b u l')
    ∙ ground (arith, infos-admit t ip u (alive_ips u.uid l') l')

load-refresh :
    (now : ℤ) (t : String) (u : UserLimitInfo) (l : Limiter)
    → u.expire_time <ℤ now
    → u.expire_time ≢ pos 0
    → u.speed_limit ≡ pos 0
    → load t (refresh now t u l).user_limit_info ≡ none
unfolding refresh
load-refresh now t u l over set none_left = ground (
  arith,
  load-delete t t l.user_limit_info,
  str_iff t t,
  int_beq_iff u.expire_time (pos 0),
  int_beq_iff u.speed_limit (pos 0),
)

-- When a user's dynamic limit has run out and the user has no other speed limit, the next check
-- drops the user: every check after it is refused as of an unknown user.
pub expired_lockout :
    (now later : ℤ) (t ip ip' : String) (b b' : Bool) (u : UserLimitInfo) (l : Limiter)
    → load t l.user_limit_info ≡ some u
    → u.expire_time <ℤ now
    → u.expire_time ≢ pos 0
    → u.speed_limit ≡ pos 0
    → let answer = (check_limit later t ip' b' (check_limit now t ip b l).0).1 in
      (answer.reject ≡ true) × (answer.info.reason ≡ unknown_user)
unfolding check_limit
expired_lockout now later t ip ip' b b' u l known over set none_left =
    let gone : load t (check_limit now t ip b l).0.user_limit_info ≡ none =
      rw (known, check_limit)
        (ap (load t) (infos-check_known now t (trim_prefix ip "::ffff:") b u l)
          ∙ load-refresh now t u l over set none_left) in
    rw (gone, check_limit) (refl, refl)

shared_bucket :
    (t : String) (limit : ℤ) (l l' : Limiter) (o : Option DynamicBucket) (d : DynamicBucket)
    → pos 0 <ℤ limit
    → load t l.speed_limiter ≡ some d
    → Gives t limit l l' o
    → (o ≡ some d) × (get d l'.buckets ≡ get d l.buckets)
shared_bucket t limit l l' none d p e g = absurd (omega arith)
shared_bucket t limit l l' (some c) d p e g = ground arith

-- A user who has a bucket keeps it at its rate when a dynamic limit is set: a connection that is
-- let in afterwards, under whatever positive limit, is throttled at the rate of before.
pub dynamic_limit-stale :
    (now : ℤ) (tag uuid ip : String) (b : Bool) (limit expire : ℤ) (u : UserLimitInfo)
    (d : DynamicBucket) (l l' : Limiter)
    → load (user_tag tag uuid) l.speed_limiter ≡ some d
    → update_dynamic_speed_limit tag uuid limit expire l ≡ some l'
    → load (user_tag tag uuid) l'.user_limit_info ≡ some u
    → pos 0 <ℤ effective_limit now u l'
    → (check_limit now (user_tag tag uuid) ip b l').1.reject ≡ false
    → let r = check_limit now (user_tag tag uuid) ip b l' in
      (r.1.bucket ≡ some d) × (get d r.0.buckets ≡ get d l.buckets)
unfolding update_dynamic_speed_limit
dynamic_limit-stale now tag uuid ip b limit expire u d l l' has set known p allowed =
    let t = user_tag tag uuid in
    let r = check_limit now t ip b l' in
    ground (
      arith,
      shared_bucket t (effective_limit now u l') l' r.0 r.1.bucket d,
      check_limit-bucket now t ip b u l' known allowed,
    )
