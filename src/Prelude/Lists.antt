-- ===== src/Prelude/Lists.antt =====
-- Lists measured by native numbers, and predicates by recursion.
use Prim.Native.Nat.{ℕ, suc, ◌+◌}
use mathlib.Core.Path.{◌≡◌, refl}
use mathlib.Core.Logic.{◌⊎◌, inl, inr}
use mathlib.Core.List.{List, [], ◌∷◌, ◌++◌}
use native.Mathlib.Omega.{arith}

module _ {ℓ} {A : Type ℓ} where
  abbrev pub length : List A → ℕ
  length [] = 0
  length (x ∷ xs) = suc (length xs)

  pub length-append : (xs ys : List A) → length (xs ++ ys) ≡ length xs + length ys
  length-append [] ys = omega arith
  length-append (x ∷ xs) ys = omega (arith, length-append xs ys)

-- A `for` loop over a slice that changes the state `s`.
unfoldable pub each {ℓ κ} : {A : Type ℓ} {S : Type κ} → (A → S → S) → List A → S → S
each f [] s = s
each f (x ∷ xs) s = each f xs (f x s)

-- What every round keeps, the loop keeps.
pub each_inv {ℓ κ μ} :
    {A : Type ℓ} {S : Type κ} (P : S → Type μ) (f : A → S → S)
    → ((x : A) (s : S) → P s → P (f x s))
    → (xs : List A) (s : S) → P s
    → P (each f xs s)
unfolding each
each_inv P f keep [] s h = h
each_inv P f keep (x ∷ xs) s h = each_inv P f keep xs (f x s) (keep x s h)

abbrev pub IsIn : {A : Type 0} → A → List A → Type 0
IsIn x [] = ⊥
IsIn x (y ∷ ys) = (x ≡ y) ⊎ IsIn x ys

pub IsIn-append : {A : Type 0} (x : A) (xs ys : List A) → IsIn x xs → IsIn x (xs ++ ys)
IsIn-append x [] ys h = elim h [ ]
IsIn-append x (y ∷ xs) ys (inl e) = inl e
IsIn-append x (y ∷ xs) ys (inr h) = inr (IsIn-append x xs ys h)

pub IsIn-last : {A : Type 0} (x : A) (xs : List A) → IsIn x (xs ++ x ∷ [])
IsIn-last x [] = inl refl
IsIn-last x (y ∷ xs) = inr (IsIn-last x xs)
