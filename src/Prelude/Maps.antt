-- ===== src/Prelude/Maps.antt =====
-- Go's maps and `sync.Map` as association lists. The order of the entries is the order in which a
-- `range` meets them, which Go leaves open: the theorems hold for every order.
use mathlib.Core.Path.{◌≡◌, refl}
use mathlib.Core.Option.{Option, none, some}
use mathlib.Core.List.{List, [], ◌∷◌}
use native.Mathlib.Omega.{arith}
use zicnode.Prelude.Tests.{if◌then◌else◌}
use zicnode.Prelude.Equality.{Key, ◌==◌}

abbrev pub Map {ℓ κ} : Type ℓ → Type κ → Type (ℓ ⊔ κ)
Map K V = List (K × V)

module _ {ℓ κ} {K : Type ℓ} {V : Type κ} ⦃key : Key K⦄ where
  unfoldable pub load : K → Map K V → Option V
  load k [] = none
  load k ((j, v) ∷ m) = if j == k then some v else load k m

  unfoldable pub store : K → V → Map K V → Map K V
  store k v [] = (k, v) ∷ []
  store k v ((i, old) ∷ m) = if i == k then (i, v) ∷ m else (i, old) ∷ store k v m

  unfoldable pub delete : K → Map K V → Map K V
  delete k [] = []
  delete k ((j, w) ∷ m) = let rest = delete k m in if j == k then rest else (j, w) ∷ rest

  pub load-store :
      (k j : K) (v : V) (m : Map K V) → load j (store k v m) ≡ (if k == j then some v else load j m)
  unfolding load store
  load-store k j v [] = refl
  load-store k j v ((i, w) ∷ m) =
      ground (arith, key.same_iff k j, key.same_iff i k, key.same_iff i j, load-store k j v m)

  pub load-delete :
      (k j : K) (m : Map K V) → load j (delete k m) ≡ (if k == j then none else load j m)
  unfolding load delete
  load-delete k j [] = ground arith
  load-delete k j ((i, w) ∷ m) =
      ground (arith, key.same_iff k j, key.same_iff i k, key.same_iff i j, load-delete k j m)

  -- No key has two entries.
  abbrev pub Distinct : Map K V → Type κ
  Distinct [] = Unit
  Distinct ((k, v) ∷ m) = (load k m ≡ none) × Distinct m

  pub store-Distinct : (k : K) (v : V) (m : Map K V) → Distinct m → Distinct (store k v m)
  unfolding load store
  store-Distinct k v [] h = (refl, tt)
  store-Distinct k v ((j, w) ∷ m) h =
      ground
        (arith, key.same_iff j k, key.same_iff k j, load-store k j v m, store-Distinct k v m h.1)

  pub delete-Distinct : (k : K) (m : Map K V) → Distinct m → Distinct (delete k m)
  unfolding load delete
  delete-Distinct k [] h = tt
  delete-Distinct k ((j, w) ∷ m) h = ground (arith, load-delete k j m, delete-Distinct k m h.1)

  -- Writes that change nothing, and a write that is taken back.
  pub store_same : (k : K) (v : V) (m : Map K V) → load k m ≡ some v → store k v m ≡ m
  unfolding load store
  store_same k v [] h = cc
  store_same k v ((j, w) ∷ m) h = ground (arith, key.same_iff j k, store_same k v m)

  pub delete_absent : (k : K) (m : Map K V) → load k m ≡ none → delete k m ≡ m
  unfolding load delete
  delete_absent k [] h = refl
  delete_absent k ((j, w) ∷ m) h = ground (arith, delete_absent k m)

  pub delete-store_absent :
      (k : K) (v : V) (m : Map K V) → load k m ≡ none → delete k (store k v m) ≡ m
  unfolding load store delete
  delete-store_absent k v [] h = ground (arith, key.same_iff k k)
  delete-store_absent k v ((j, w) ∷ m) h = ground (arith, delete-store_absent k v m)

pub ruleset map_laws = (load-store, load-delete)
