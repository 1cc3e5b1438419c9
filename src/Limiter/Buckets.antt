-- ===== src/Limiter/Buckets.antt =====
-- limiter/limiter.go: the invariant of the buckets that users have, kept by every operation.
use zicnode.Prelude.{
  ◌<◌, String, ◌≡◌, Option, none, some, Map, ℤ, pos, ◌<ℤ◌, load, store, delete, arith, str_iff,
  nat_beq_iff, string_key, nat_key, load-store, load-delete,
}
use zicnode.Rate.{Heap, Bucket, DynamicBucket, bucket_of, get, new_dynamic_bucket, update}
use zicnode.Limiter.State.{Limiter}

-- A bucket that can be made: the constructor panics on a rate that is not positive.
abbrev pub IsMade : Option Bucket → Type 0
IsMade none = ⊥
IsMade (some b) = (pos 0 <ℤ b.capacity) × (pos 0 <ℤ b.quantum)

-- Each user's bucket is in the heap and was made with a positive rate, and no two users share one.
pub record Owns (owners : Map String DynamicBucket) (h : Heap) : Type 0 where
  pub old : (t : String) (d : DynamicBucket) → load t owners ≡ some d → d < h.next
  pub made : (t : String) (d : DynamicBucket) → load t owners ≡ some d → IsMade (get d h)
  pub separate :
      (s t : String) (d : DynamicBucket) → load s owners ≡ some d → load t owners ≡ some d → s ≡ t

module _ (owners : Map String DynamicBucket) (h : Heap) (o : Owns owners h) where
  pub Owns-make :
      (taguuid : String) (rate : ℤ)
      → pos 0 <ℤ rate
      → Owns (store taguuid (new_dynamic_bucket rate h).1 owners) (new_dynamic_bucket rate h).0
  unfolding new_dynamic_bucket get
  Owns-make taguuid rate p = record {
    old = λ t d e. ground (arith, load-store taguuid t h.next owners, o.old t d);
    made = λ t d e. ground (
      arith,
      load-store taguuid t h.next owners,
      load-store h.next d (bucket_of rate) h.cells,
      nat_beq_iff h.next d,
      o.old t d,
      o.made t d,
    );
    separate = λ s t d e f. ground (
      arith,
      load-store taguuid s h.next owners,
      load-store taguuid t h.next owners,
      str_iff taguuid s,
      str_iff taguuid t,
      o.old s d,
      o.old t d,
      o.separate s t d,
    );
  }

  pub Owns-update : (d : DynamicBucket) (rate : ℤ) → pos 0 <ℤ rate → Owns owners (update d rate h)
  unfolding update get
  Owns-update d rate p = record {
    old = o.old;
    made = λ t c e. ground (arith, load-store d c (bucket_of rate) h.cells, o.made t c);
    separate = o.separate;
  }

  pub Owns-delete : (taguuid : String) → Owns (delete taguuid owners) h
  Owns-delete taguuid = record {
    old = λ t d e. ground (arith, load-delete taguuid t owners, o.old t d);
    made = λ t d e. ground (arith, load-delete taguuid t owners, o.made t d);
    separate = λ s t d e f.
        ground
          (arith, load-delete taguuid s owners, load-delete taguuid t owners, o.separate s t d);
  }

abbrev pub IsValid : Limiter → Type 0
IsValid l = Owns l.speed_limiter l.buckets
