-- ===== src/Prelude/Decimal.antt =====
-- strconv.Atoi, ParseUint and Itoa, and what the program uses of a float64.
use Prim.Native.Char.{code}
use Prim.Native.Nat.{ℕ, zero, suc, ◌+◌, ◌-◌, ◌*◌, ◌/◌, ◌%◌, ◌^◌}
use Prim.Native.String.{String, ◌++◌}
use mathlib.Core.Path.{◌≡◌, refl}
use mathlib.Core.Bool.{Bool, ◌&&◌}
use mathlib.Core.Option.{Option, none, some}
use zicnode.Prelude.Tests.{nat_beq, leb, ltb, if◌then◌else◌}
use zicnode.Prelude.Int.{ℤ, pos, negsuc}
use zicnode.Prelude.Text.{nth}

-- The digits of a text after those that have been read.
scan_digits : String → ℕ → Option ℕ
scan_digits String.[] n = some n
scan_digits (String.◌∷◌ c s) n =
    let rest = scan_digits s (n * 10 + (code c - 48)) in
    if leb 48 (code c) && leb (code c) 57 then rest else none

digits : String → Option ℕ
unfolding scan_digits
digits String.[] = none
digits (String.◌∷◌ c s) = scan_digits (String.◌∷◌ c s) 0

abbrev below : ℕ → Option ℕ → Option ℕ
below bound none = none
below bound (some n) = if ltb n bound then some n else none

-- strconv.ParseUint(s, 10, 64)
unfoldable pub parse_uint : String → Option ℕ
unfolding digits
parse_uint s = below (2 ^ 64) (digits s)

negative : Option ℕ → Option ℤ
negative none = none
negative (some zero) = some (pos 0)
negative (some (suc n)) = some (negsuc n)

positive : Option ℕ → Option ℤ
positive none = none
positive (some n) = some (pos n)

-- strconv.Atoi
unfoldable pub atoi : String → Option ℤ
unfolding digits negative positive
atoi String.[] = none
atoi (String.◌∷◌ c s) =
    if nat_beq (code c) 45
    then negative (below (2 ^ 63 + 1) (digits s))
    else if nat_beq (code c) 43
    then positive (below (2 ^ 63) (digits s))
    else positive (below (2 ^ 63) (digits (String.◌∷◌ c s)))

-- The digits of a number, before those that have been written. The fuel is more than their number.
emit : ℕ → ℕ → String → String
unfolding nth
emit zero n out = out
emit (suc fuel) n out =
    let shown = String.◌∷◌ (nth "0123456789" (n % 10) "0") out in
    let rest = emit fuel (n / 10) shown in if ltb n 10 then shown else rest

-- strconv.Itoa
unfoldable pub itoa : ℤ → String
unfolding emit
itoa (pos n) = emit (suc n) n ""
itoa (negsuc n) = "-" ++ emit (suc (suc n)) (suc n) ""

-- What is read of a float64: `int` and `uint64` of it, its sign, and its shortest decimal form.
pub record Float : Type 0 where
  pub truncated : ℤ
  pub as_uint : ℕ
  pub is_zero : Bool
  pub is_positive : Bool
  pub shown : String

atoi_values :
    (atoi "-12" ≡ some (negsuc 11)) × (atoi "1.5" ≡ none) × (atoi "9223372036854775808" ≡ none)
unfolding atoi
atoi_values = (refl, refl, refl)

itoa_values : (itoa (pos 2408) ≡ "2408") × (itoa (negsuc 6) ≡ "-7") × (itoa (pos 0) ≡ "0")
unfolding itoa
itoa_values = (refl, refl, refl)
