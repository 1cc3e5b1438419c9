-- ===== src/Limiter/Speed.antt =====
-- limiter/dynamic.go, and the rate in bytes a second that limiter/limiter.go makes of a limit.
pub mod Least
use zicnode.Prelude.{ℤ, pos, ◌==◌, int_key, ◌||◌, ltb_ℤ, mul64, quot_ℕ, if◌then◌else◌}

unfoldable pub determine_speed_limit : ℤ → ℤ → ℤ
determine_speed_limit limit1 limit2 =
    if limit1 == pos 0 || limit2 == pos 0
    then (if ltb_ℤ limit2 limit1 then limit1 else if ltb_ℤ limit1 limit2 then limit2 else pos 0)
    else if ltb_ℤ limit2 limit1
    then limit2
    else if ltb_ℤ limit1 limit2
    then limit1
    else limit1

-- int64(limit) * 1000000 / 8
unfoldable pub byte_rate : ℤ → ℤ
byte_rate limit = quot_ℕ (mul64 limit (pos 1000000)) 8
