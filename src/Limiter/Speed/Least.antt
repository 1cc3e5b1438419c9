-- ===== src/Limiter/Speed/Least.antt =====
-- limiter/dynamic.go: the smaller of the two limits, where zero means that there is none.
use zicnode.Prelude.{◌≡◌, ◌≢◌, ◌⊎◌, ℤ, pos, negsuc, ◌≤ℤ◌, arith}
use zicnode.Limiter.Speed.{determine_speed_limit}

-- `r` is the least of the limits `a` and `b` that are set; zero if neither is.
pub record IsLeastSet (a b r : ℤ) : Type 0 where
  pub chosen : (r ≡ a) ⊎ (r ≡ b)
  pub unset : r ≡ pos 0 → (a ≡ pos 0) × (b ≡ pos 0)
  pub below_left : a ≢ pos 0 → r ≤ℤ a
  pub below_right : b ≢ pos 0 → r ≤ℤ b

-- For limits that are not negative, `determine_speed_limit` is the least limit that is set.
pub determine_speed_limit-IsLeastSet :
    (a b : ℤ) → pos 0 ≤ℤ a → pos 0 ≤ℤ b → IsLeastSet a b (determine_speed_limit a b)
unfolding determine_speed_limit
determine_speed_limit-IsLeastSet (negsuc a) b p q = absurd (ground arith)
determine_speed_limit-IsLeastSet (pos a) (negsuc b) p q = absurd (ground arith)
determine_speed_limit-IsLeastSet (pos a) (pos b) p q = record {
  chosen = ground arith;
  unset = ground arith;
  below_left = ground arith;
  below_right = ground arith;
}
