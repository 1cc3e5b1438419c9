-- ===== src/Counter.antt =====
-- common/counter: the traffic counters of a node, and the view of them that connections hold. A
-- `TrafficStorage` is shared with the writers of open connections, so it has an address in a heap;
-- `table` is the map of a `TrafficCounter`. Each method is one atomic step.
pub mod Counts
use zicnode.Prelude.{
  ℕ, suc, String, Option, none, some, [], ◌∷◌, ℤ, pos, add64, Map, load, store, delete, length,
  string_key, nat_key,
}

pub record TrafficStorage : Type 0 where
  pub up_counter : ℤ
  pub down_counter : ℤ

abbrev pub zero_storage : TrafficStorage
zero_storage = record { up_counter = pos 0; down_counter = pos 0 }

pub record TrafficCounter : Type 0 where
  pub next : ℕ
  pub heap : Map ℕ TrafficStorage
  pub table : Map String ℕ

abbrev pub new_traffic_counter : TrafficCounter
new_traffic_counter = record { next = 0; heap = []; table = [] }

-- The storage at an address; every address in use has one.
unfoldable pub storage : ℕ → TrafficCounter → TrafficStorage
storage a c = elim (load a c.heap) [ none ↦ zero_storage | some s ↦ s ]

unfoldable pub get_counter : String → TrafficCounter → TrafficCounter × ℕ
get_counter uuid c = elim (load uuid c.table) [
  | some a ↦ (c, a)
  | none ↦ (
    record {
      next = suc c.next;
      heap = store c.next zero_storage c.heap;
      table = store uuid c.next c.table;
    },
    c.next,
  )
]

unfoldable pub get_up_count : String → TrafficCounter → ℤ
unfolding storage
get_up_count uuid c = elim (load uuid c.table) [ some a ↦ (storage a c).up_counter | none ↦ pos 0 ]

unfoldable pub get_down_count : String → TrafficCounter → ℤ
unfolding storage
get_down_count uuid c = elim (load uuid c.table) [
  | some a ↦ (storage a c).down_counter
  | none ↦ pos 0
]

unfoldable pub len : TrafficCounter → ℕ
len c = length c.table

-- A write to the storage at an address.
unfoldable pub write : ℕ → TrafficStorage → TrafficCounter → TrafficCounter
write a s c = record c { heap = store a s c.heap }

unfoldable pub reset : String → TrafficCounter → TrafficCounter
unfolding write
reset uuid c = elim (load uuid c.table) [ some a ↦ write a zero_storage c | none ↦ c ]

unfoldable pub delete_counter : String → TrafficCounter → TrafficCounter
delete_counter uuid c = record c { table = delete uuid c.table }

-- XrayTrafficCounter.Add, through the pointer to one of the two counters of a storage.
unfoldable pub add_up : ℕ → ℤ → TrafficCounter → TrafficCounter
unfolding write storage
add_up a n c = let s = storage a c in write a (record s { up_counter = add64 s.up_counter n }) c

unfoldable pub add_down : ℕ → ℤ → TrafficCounter → TrafficCounter
unfolding write storage
add_down a n c =
    let s = storage a c in write a (record s { down_counter = add64 s.down_counter n }) c

unfoldable pub rx : String → ℤ → TrafficCounter → TrafficCounter
unfolding get_counter add_down
rx uuid n c = let (c', a) = get_counter uuid c in add_down a n c'

unfoldable pub tx : String → ℤ → TrafficCounter → TrafficCounter
unfolding get_counter add_up
tx uuid n c = let (c', a) = get_counter uuid c in add_up a n c'
