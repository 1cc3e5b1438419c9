-- ===== src/Dispatcher/Open/Valid.antt =====
-- core/app/dispatcher/default.go: a new connection adds exactly one link, to its own user.
use zicnode.Prelude.{
  ℕ, suc, ◌<◌, String, ◌≡◌, ◌≢◌, refl, none, some, [], ◌∷◌, Map, load, store, length, string_key,
  nat_key, nat_beq_iff, arith, load-store,
}
use zicnode.Dispatcher.Link.{
  Links, LinkManager, ManagedWriter, Reader, Managers, empty_manager, count,
}
use zicnode.Dispatcher.Link.Closing.{Owned}
use zicnode.Dispatcher.Table.{DefaultDispatcher, count_links}
use zicnode.Dispatcher.Table.Drain.{
  Absent, AllOwned, IsValid, links_at, AllOwned-store, count_links-store,
}

abbrev pub IdsBelow : ℕ → Links → Type 0
IdsBelow n [] = Unit
IdsBelow n ((i, wr) ∷ ls) = (i < n) × IdsBelow n ls

-- The addresses in use are below the next one.
abbrev pub Below : ℕ → Managers → Map String ℕ → Type 0
Below n h [] = Unit
Below n h ((user, a) ∷ table) = (a < n) × IdsBelow n (links_at a h) × Below n h table

pub record IsAllocated (d : DefaultDispatcher) : Type 0 where
  pub valid : IsValid d
  pub below : Below d.next d.managers d.link_managers

IdsBelow-suc : (n : ℕ) (ls : Links) → IdsBelow n ls → IdsBelow (suc n) ls
IdsBelow-suc n [] b = tt
IdsBelow-suc n ((i, wr) ∷ ls) b = ground (arith, IdsBelow-suc n ls b.1)

pub Below-suc :
    (n : ℕ) (h : Managers) (table : Map String ℕ) → Below n h table → Below (suc n) h table
Below-suc n h [] b = tt
Below-suc n h ((user, a) ∷ table) b =
    ground (arith, IdsBelow-suc n (links_at a h) b.1, Below-suc n h table b.2)

Absent-Below : (n : ℕ) (h : Managers) (table : Map String ℕ) → Below n h table → Absent n table
Absent-Below n h [] b = tt
Absent-Below n h ((user, a) ∷ table) b = ground (arith, Absent-Below n h table b.2)

-- A writer at a new address makes the map one longer.
pub store_fresh :
    (n : ℕ) (wr : ManagedWriter × Reader) (ls : Links)
    → IdsBelow n ls
    → length (store n wr ls) ≡ suc (length ls)
unfolding store
store_fresh n wr [] b = refl
store_fresh n wr ((i, x) ∷ ls) b = ground (arith, nat_beq_iff i n, store_fresh n wr ls b.1)

pub store-Owned :
    (a : ℕ) (w : ManagedWriter) (r : Reader) (ls : Links)
    → w.manager ≡ a
    → Owned a ls
    → Owned a (store w.id (w, r) ls)
unfolding store
store-Owned a w r [] e o = ground arith
store-Owned a w r ((i, x) ∷ ls) e o = ground (arith, store-Owned a w r ls e o.1)

pub store-IdsBelow :
    (n : ℕ) (wr : ManagedWriter × Reader) (ls : Links)
    → IdsBelow n ls
    → IdsBelow (suc n) (store n wr ls)
unfolding store
store-IdsBelow n wr [] b = ground arith
store-IdsBelow n wr ((i, x) ∷ ls) b =
    ground (arith, IdsBelow-suc n ls b.1, store-IdsBelow n wr ls b.1)

-- The table with a new user at the next address.
module _ (email : String) (n : ℕ) (h : Managers) where
  grown-Absent :
      (a : ℕ) (table : Map String ℕ) → a ≢ n → Absent a table → Absent a (store email n table)
  unfolding store
  grown-Absent a [] d o = ground arith
  grown-Absent a ((user, c) ∷ table) d o = ground (arith, grown-Absent a table d o.1)

  pub grown-AllOwned :
      (table : Map String ℕ)
      → load email table ≡ none
      → Below n h table
      → AllOwned h table
      → AllOwned (store n empty_manager h) (store email n table)
  unfolding load store
  grown-AllOwned [] e b o = ground (arith, load-store n n empty_manager h, nat_beq_iff n n)
  grown-AllOwned ((user, a) ∷ table) e b o = ground (
    arith,
    load-store n a empty_manager h,
    nat_beq_iff n a,
    grown-Absent a table,
    grown-AllOwned table,
  )

  pub grown-count :
      (table : Map String ℕ)
      → load email table ≡ none
      → Below n h table
      → count_links (store email n table) (store n empty_manager h) ≡ count_links table h
  unfolding load store count_links count
  grown-count [] e b = ground (arith, load-store n n empty_manager h, nat_beq_iff n n)
  grown-count ((user, a) ∷ table) e b =
      ground (arith, load-store n a empty_manager h, nat_beq_iff n a, grown-count table)

  pub grown-Below :
      (table : Map String ℕ)
      → load email table ≡ none
      → Below n h table
      → Below (suc n) (store n empty_manager h) (store email n table)
  unfolding load store
  grown-Below [] e b = ground (arith, load-store n n empty_manager h, nat_beq_iff n n)
  grown-Below ((user, a) ∷ table) e b = ground (
    arith,
    load-store n a empty_manager h,
    nat_beq_iff n a,
    IdsBelow-suc n (links_at a h) b.1,
    grown-Below table,
  )

-- The links of the manager of one user replaced.
Absent-load :
    (a c : ℕ) (email : String) (table : Map String ℕ)
    → load email table ≡ some a
    → Absent c table
    → c ≢ a
unfolding load
Absent-load a c email [] e o = ground arith
Absent-load a c email ((user, i) ∷ table) e o = ground (arith, Absent-load a c email table)

module _ (email : String) (a : ℕ) (m : LinkManager) (h : Managers) where
  pub relinked-AllOwned :
      (table : Map String ℕ)
      → load email table ≡ some a
      → Owned a m.links
      → AllOwned h table
      → AllOwned (store a m h) table
  unfolding load
  relinked-AllOwned [] e k o = ground arith
  relinked-AllOwned ((user, c) ∷ table) e k o = ground (
    arith,
    load-store a c m h,
    nat_beq_iff a c,
    AllOwned-store a m h table,
    Absent-load a c email table,
    relinked-AllOwned table,
  )

  pub relinked-count :
      (table : Map String ℕ)
      → load email table ≡ some a
      → length m.links ≡ suc (count a h)
      → AllOwned h table
      → count_links table (store a m h) ≡ suc (count_links table h)
  unfolding load count_links count
  relinked-count [] e k o = ground arith
  relinked-count ((user, c) ∷ table) e k o = ground (
    arith,
    load-store a c m h,
    nat_beq_iff a c,
    count_links-store a m h table,
    Absent-load a c email table,
    relinked-count table,
  )

  pub relinked-Below :
      (n : ℕ) (table : Map String ℕ)
      → IdsBelow n m.links
      → Below n h table
      → Below n (store a m h) table
  relinked-Below n [] k b = tt
  relinked-Below n ((user, c) ∷ table) k b =
      ground (arith, load-store a c m h, nat_beq_iff a c, relinked-Below n table)
