-- ===== src/Counter/Counts.antt =====
-- common/counter/traffic.go refines a function from uuids to pairs of counts.
use zicnode.Prelude.{
  ℕ, ◌<◌, String, ◌≡◌, refl, ap, ◌∙◌, inl, inr, some, List, [], ◌∷◌, ℤ, add64, Map, load,
  string_key, nat_key, arith, str_iff, nat_beq_iff, load-store, load-delete, Option-cases, Distinct,
  store-Distinct, delete-Distinct, if◌then◌else◌, ◌==◌, each, each_inv,
}
use zicnode.Counter.{
  TrafficStorage, zero_storage, TrafficCounter, new_traffic_counter, storage, get_counter,
  get_up_count, get_down_count, write, reset, delete_counter, add_up, add_down, rx, tx,
}

-- No uuid has two entries, no address is shared by two uuids, and none is used again.
pub record Addresses (next : ℕ) (table : Map String ℕ) : Type 0 where
  pub distinct : Distinct table
  pub old : (u : String) (a : ℕ) → load u table ≡ some a → a < next
  pub separate : (u v : String) (a : ℕ) → load u table ≡ some a → load v table ≡ some a → u ≡ v

abbrev pub IsValid : TrafficCounter → Type 0
IsValid c = Addresses c.next c.table

-- The counts of a uuid; zero for one that has no entry.
abbrev pub counts : String → TrafficCounter → TrafficStorage
counts u c = record { up_counter = get_up_count u c; down_counter = get_down_count u c }

pub data Call : Type 0 where
  gets resets deletes : String → Call
  receives sends : String → ℤ → Call

unfoldable pub step : Call → TrafficCounter → TrafficCounter
step (gets u) c = (get_counter u c).0
step (resets u) c = reset u c
step (deletes u) c = delete_counter u c
step (receives u n) c = rx u n c
step (sends u n) c = tx u n c

-- What a call does to the counts of `v`.
abbrev pub spec : Call → String → TrafficStorage → TrafficStorage
spec (gets u) v s = s
spec (resets u) v s = if u == v then zero_storage else s
spec (deletes u) v s = if u == v then zero_storage else s
spec (receives u n) v s = if u == v then record s { down_counter = add64 s.down_counter n } else s
spec (sends u n) v s = if u == v then record s { up_counter = add64 s.up_counter n } else s

module _ (c : TrafficCounter) (h : IsValid c) where
  get_counter-IsValid : (u : String) → IsValid (get_counter u c).0
  unfolding get_counter
  get_counter-IsValid u = record {
    distinct = ground (arith, h.distinct, store-Distinct u c.next c.table h.distinct);
    old = λ v a e. ground (arith, load-store u v c.next c.table, h.old v a);
    separate = λ v w a e f. ground (
      arith,
      load-store u v c.next c.table,
      load-store u w c.next c.table,
      str_iff u v,
      str_iff u w,
      h.old v a,
      h.old w a,
      h.separate v w a,
    );
  }

  pub delete_counter-IsValid : (u : String) → IsValid (delete_counter u c)
  unfolding delete_counter
  delete_counter-IsValid u = record {
    distinct = delete-Distinct u c.table h.distinct;
    old = λ v a e. ground (arith, load-delete u v c.table, h.old v a);
    separate = λ v w a e f.
        ground (arith, load-delete u v c.table, load-delete u w c.table, h.separate v w a);
  }

  counts-get_counter : (u v : String) → counts v (get_counter u c).0 ≡ counts v c
  unfolding get_counter get_up_count get_down_count storage
  counts-get_counter u v = elim (Option-cases (load v c.table)) [
    | inl e ↦ ground (
      arith,
      str_iff u v,
      load-store u v c.next c.table,
      load-store c.next c.next zero_storage c.heap,
      nat_beq_iff c.next c.next,
    )
    | inr (a, e) ↦ ground (
      arith,
      str_iff u v,
      load-store u v c.next c.table,
      load-store c.next a zero_storage c.heap,
      nat_beq_iff c.next a,
      h.old v a e,
    )
  ]

  -- A write to the storage of `u` is seen there alone.
  pub counts-write :
      (u v : String) (a : ℕ) (s : TrafficStorage)
      → load u c.table ≡ some a
      → counts v (write a s c) ≡ (if u == v then s else counts v c)
  unfolding write get_up_count get_down_count storage
  counts-write u v a s e = elim (Option-cases (load v c.table)) [
    | inl f ↦ ground (arith, str_iff u v)
    | inr (b, f) ↦
        ground (arith, str_iff u v, load-store a b s c.heap, nat_beq_iff a b, h.separate u v a e)
  ]

load-get_counter :
    (c : TrafficCounter) (u : String) → load u (get_counter u c).0.table ≡ some (get_counter u c).1
unfolding get_counter
load-get_counter c u = ground (arith, load-store u u c.next c.table, str_iff u u)

-- The storage at the address of a uuid has its counts.
pub storage-counts :
    (c : TrafficCounter) (u : String) (a : ℕ) → load u c.table ≡ some a → storage a c ≡ counts u c
unfolding get_up_count get_down_count
storage-counts c u a e = ground arith

step-IsValid : (k : Call) (c : TrafficCounter) → IsValid c → IsValid (step k c)
unfolding step write reset rx tx
step-IsValid (gets u) c h = get_counter-IsValid c h u
step-IsValid (resets u) c h = ground arith
step-IsValid (deletes u) c h = delete_counter-IsValid c h u
step-IsValid (receives u n) c h = get_counter-IsValid c h u
step-IsValid (sends u n) c h = get_counter-IsValid c h u

-- Each call does to the counts of every uuid what the specification says: it touches its own uuid
-- alone, and a count that passes the largest `int64` wraps.
step-counts :
    (k : Call) (c : TrafficCounter) (v : String)
    → IsValid c
    → counts v (step k c) ≡ spec k v (counts v c)
unfolding step
step-counts (gets u) c v h = counts-get_counter c h u v
step-counts (resets u) c v h =
    unfold reset in
    elim (Option-cases (load u c.table)) [
      | inl e ↦ unfold get_up_count get_down_count in ground (arith, str_iff u v)
      | inr (a, e) ↦ ground (arith, counts-write c h u v a zero_storage e)
    ]
step-counts (deletes u) c v h =
    unfold delete_counter get_up_count get_down_count storage in
    ground (arith, str_iff u v, load-delete u v c.table)
step-counts (receives u n) c v h =
    let c' = (get_counter u c).0 in
    let a = (get_counter u c).1 in
    unfold rx add_down in
    ground (
      arith,
      str_iff u v,
      storage-counts c' u a (load-get_counter c u),
      counts-get_counter c h u v,
      counts-write c' (get_counter-IsValid c h u) u v a
          (record (storage a c') { down_counter = add64 (storage a c').down_counter n })
          (load-get_counter c u),
    )
step-counts (sends u n) c v h =
    let c' = (get_counter u c).0 in
    let a = (get_counter u c).1 in
    unfold tx add_up in
    ground (
      arith,
      str_iff u v,
      storage-counts c' u a (load-get_counter c u),
      counts-get_counter c h u v,
      counts-write c' (get_counter-IsValid c h u) u v a
          (record (storage a c') { up_counter = add64 (storage a c').up_counter n })
          (load-get_counter c u),
    )

counts-run :
    (ks : List Call) (c : TrafficCounter) (v : String)
    → IsValid c
    → counts v (each step ks c) ≡ each (λ k s. spec k v s) ks (counts v c)
unfolding each
counts-run [] c v h = refl
counts-run (k ∷ ks) c v h =
    counts-run ks (step k c) v (step-IsValid k c h)
    ∙ ap (each (λ k s. spec k v s) ks) (step-counts k c v h)

new-IsValid : IsValid new_traffic_counter
unfolding load
new-IsValid = record { distinct = tt; old = λ u a e. cc; separate = λ u w a e f. cc }

-- Any calls on a new counter leave it valid.
pub run-IsValid : (ks : List Call) → IsValid (each step ks new_traffic_counter)
run-IsValid ks = each_inv IsValid step step-IsValid ks new_traffic_counter new-IsValid

-- After any calls on a new counter, each uuid has the counts that its own calls give: bytes
-- received and sent since the last reset or delete, in `int64`, whatever the other uuids did.
pub run-counts :
    (ks : List Call) (v : String)
    → counts v (each step ks new_traffic_counter) ≡ each (λ k s. spec k v s) ks zero_storage
unfolding get_up_count get_down_count load
run-counts ks v = counts-run ks new_traffic_counter v new-IsValid
