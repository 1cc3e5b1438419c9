-- ===== src/Rate.antt =====
-- common/rate/writer.go: rate-limit buckets that connections share by reference.
-- `Bucket` is what the token bucket of github.com/juju/ratelimit is made of: the arguments of its
-- constructor. A `DynamicBucket` is an address in the heap of buckets.
use zicnode.Prelude.{ℕ, suc, Option, [], ℤ, pos, Map, load, store, nat_key}

pub record Bucket : Type 0 where
  pub fill_interval : ℤ
  pub capacity : ℤ
  pub quantum : ℤ

abbrev pub DynamicBucket : Type 0
DynamicBucket = ℕ

pub record Heap : Type 0 where
  pub next : ℕ
  pub cells : Map ℕ Bucket

abbrev pub empty : Heap
empty = record { next = 0; cells = [] }

-- time.Second, in nanoseconds.
abbrev second : ℤ
second = pos 1_000_000_000

abbrev pub bucket_of : ℤ → Bucket
bucket_of rate = record { fill_interval = second; capacity = rate; quantum = rate }

unfoldable pub new_dynamic_bucket : ℤ → Heap → Heap × DynamicBucket
new_dynamic_bucket rate h =
    (record { next = suc h.next; cells = store h.next (bucket_of rate) h.cells }, h.next)

unfoldable pub get : DynamicBucket → Heap → Option Bucket
get d h = load d h.cells

unfoldable pub update : DynamicBucket → ℤ → Heap → Heap
update d rate h = record h { cells = store d (bucket_of rate) h.cells }
