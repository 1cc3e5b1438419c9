-- ===== src/Dispatcher/Table/Owned.antt =====
-- core/app/dispatcher/default.go: the managers of a table without one of its entries.
use zicnode.Prelude.{
  ℕ, Bool, true, false, String, ◌≡◌, ◌≢◌, sym, subst, inl, inr, Option-cases, none, some, [], ◌∷◌,
  Map, load, store, delete, delete-Distinct, string_key, nat_key, nat_beq_iff, str_iff, arith,
  load-store, ◌==◌, if◌then◌else◌,
}
use zicnode.Dispatcher.Link.{Links, LinkManager, Managers, empty_manager}
use zicnode.Dispatcher.Link.Closing.{Owned}
use zicnode.Dispatcher.Table.{DefaultDispatcher}
use zicnode.Dispatcher.Table.Drain.{Absent, AllOwned, IsValid, links_at, AllOwned-store}

-- The links of a user.
abbrev pub links_under : String → Map String ℕ → Managers → Links
links_under user table h = elim (load user table) [ none ↦ [] | some a ↦ links_at a h ]

pub Absent-load :
    (a b : ℕ) (user : String) (table : Map String ℕ)
    → Absent a table
    → load user table ≡ some b
    → a ≢ b
unfolding load
Absent-load a b user [] n e = ground (arith, e)
Absent-load a b user ((v, c) ∷ table) n e =
    ground (arith, e, n, str_iff v user, Absent-load a b user table n.1)

pub Absent-delete :
    (a : ℕ) (user : String) (table : Map String ℕ) → Absent a table → Absent a (delete user table)
unfolding delete
Absent-delete a user [] n = tt
Absent-delete a user ((v, c) ∷ table) n = ground (arith, n, Absent-delete a user table n.1)

module _ (h : Managers) where
  pub AllOwned-load :
      (a : ℕ) (user : String) (table : Map String ℕ)
      → AllOwned h table
      → load user table ≡ some a
      → (m : LinkManager) × (load a h ≡ some m) × Owned a m.links
  unfolding load
  AllOwned-load a user [] o e = absurd (ground (arith, e))
  AllOwned-load a user ((v, c) ∷ table) o e = by_key (v == user) e (AllOwned-load a user table o.2)
    where
      by_key :
          (b : Bool)
          → (if b then some c else load user table) ≡ some a
          → (load user table ≡ some a → (m : LinkManager) × (load a h ≡ some m) × Owned a m.links)
          → (m : LinkManager) × (load a h ≡ some m) × Owned a m.links
      by_key true e later =
          subst (λ a. (m : LinkManager) × (load a h ≡ some m) × Owned a m.links) (ground (arith, e))
            o.0
      by_key false e later = later e

  pub AllOwned-delete :
      (user : String) (table : Map String ℕ) → AllOwned h table → AllOwned h (delete user table)
  unfolding delete
  AllOwned-delete user [] o = tt
  AllOwned-delete user ((v, c) ∷ table) o =
      ground (arith, o, Absent-delete c user table o.1, AllOwned-delete user table o.2)

  -- The address of a user whose entry is deleted is no other's.
  pub deleted-Absent :
      (a : ℕ) (user : String) (table : Map String ℕ)
      → AllOwned h table
      → load user table ≡ some a
      → Absent a (delete user table)
  unfolding load delete
  deleted-Absent a user [] o e = tt
  deleted-Absent a user ((v, c) ∷ table) o e =
      by_key (v == user) e (deleted-Absent a user table o.2)
    where
      by_key :
          (b : Bool)
          → (if b then some c else load user table) ≡ some a
          → (load user table ≡ some a → Absent a (delete user table))
          → Absent a (if b then delete user table else (v, c) ∷ delete user table)
      by_key true e later =
          subst (λ a. Absent a (delete user table)) (ground (arith, e))
            (Absent-delete c user table o.1)
      by_key false e later = (λ p. Absent-load c a user table o.1 e (sym p), later e)

pub removed-IsValid :
    (d : DefaultDispatcher) (a : ℕ) (user : String)
    → IsValid d
    → load user d.link_managers ≡ some a
    → IsValid (record d {
      managers = store a empty_manager d.managers;
      link_managers = delete user d.link_managers;
    })
removed-IsValid d a user v e = record {
  distinct = delete-Distinct user d.link_managers v.distinct;
  owned =
      AllOwned-store a empty_manager d.managers (delete user d.link_managers)
        (deleted-Absent d.managers a user d.link_managers v.owned e)
        (AllOwned-delete d.managers user d.link_managers v.owned);
}

-- What is stored under an address that is no user's changes the links of none.
pub links_under-store :
    (a : ℕ) (m : LinkManager) (h : Managers) (user : String) (table : Map String ℕ)
    → Absent a table
    → links_under user table (store a m h) ≡ links_under user table h
links_under-store a m h user table n = elim (Option-cases (load user table)) [
  | inl e ↦ ground (arith, e)
  | inr (b, e) ↦
      ground (arith, e, load-store a b m h, nat_beq_iff a b, Absent-load a b user table n e)
]
