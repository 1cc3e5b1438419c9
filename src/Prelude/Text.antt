-- ===== src/Prelude/Text.antt =====
-- What the program uses of the package `strings`.
use Prim.Native.Char.{Char, code}
use Prim.Native.Nat.{ℕ, zero, suc, ◌+◌, ◌-◌, ◌*◌, ◌/◌, ◌%◌}
use Prim.Native.String.{String}
use mathlib.Core.Option.{Option, none, some}
use mathlib.Core.Path.{◌≡◌, refl}
use mathlib.Core.Bool.{Bool, true, false, ◌&&◌}
use zicnode.Prelude.Tests.{nat_beq, leb, if◌then◌else◌}

strip : String → String → Option String
strip String.[] s = some s
strip (String.◌∷◌ c p) String.[] = none
strip (String.◌∷◌ c p) (String.◌∷◌ d s) =
    let rest = strip p s in if nat_beq (code c) (code d) then rest else none

-- strings.TrimPrefix
unfoldable pub trim_prefix : String → String → String
unfolding strip
trim_prefix s p = elim (strip p s) [ none ↦ s | some rest ↦ rest ]

-- strings.HasPrefix
unfoldable pub has_prefix : String → String → Bool
unfolding strip
has_prefix s p = elim (strip p s) [ none ↦ false | some _ ↦ true ]

-- The slice `s[:n]` of a string of ASCII characters, `none` where it panics.
unfoldable pub take_text : ℕ → String → Option String
take_text zero s = some String.[]
take_text (suc n) String.[] = none
take_text (suc n) (String.◌∷◌ c s) = elim (take_text n s) [
  | none ↦ none
  | some t ↦ some (String.◌∷◌ c t)
]

-- The character at a position, or the one given.
unfoldable pub nth : String → ℕ → Char → Char
nth String.[] n d = d
nth (String.◌∷◌ c s) zero d = c
nth (String.◌∷◌ c s) (suc n) d = nth s n d

lower_char : Char → Char
unfolding nth
lower_char c =
    if leb 65 (code c) && leb (code c) 90
    then nth "abcdefghijklmnopqrstuvwxyz" (code c - 65) c
    else c

-- strings.ToLower on ASCII letters; the names that the program compares have no others.
unfoldable pub to_lower : String → String
unfolding lower_char
to_lower String.[] = String.[]
to_lower (String.◌∷◌ c s) = String.◌∷◌ (lower_char c) (to_lower s)

-- A digit of base64.StdEncoding
unfoldable pub digit : ℕ → Char
unfolding nth
digit n = nth "ABCDEFGHIJKLMNOPQRSTUVWXYZabcdefghijklmnopqrstuvwxyz0123456789+/" (n % 64) "="

-- base64.StdEncoding.EncodeToString of the bytes of a string of ASCII characters
unfoldable pub base64 : String → String
unfolding digit
base64 String.[] = String.[]
base64 (String.◌∷◌ a String.[]) =
    String.◌∷◌ (digit (code a / 4)) (String.◌∷◌ (digit (code a % 4 * 16)) "==")
base64 (String.◌∷◌ a (String.◌∷◌ b String.[])) =
    String.◌∷◌ (digit (code a / 4)) (
      String.◌∷◌ (digit (code a % 4 * 16 + code b / 16)) (String.◌∷◌ (digit (code b % 16 * 4)) "="))
base64 (String.◌∷◌ a (String.◌∷◌ b (String.◌∷◌ c s))) = String.◌∷◌ (digit (code a / 4)) (
    String.◌∷◌ (digit (code a % 4 * 16 + code b / 16)) (
      String.◌∷◌ (digit (code b % 16 * 4 + code c / 64))
        (String.◌∷◌ (digit (code c % 64)) (base64 s))))

-- Known values.
base64_many : base64 "Man" ≡ "TWFu"
unfolding base64
base64_many = refl

base64_few : base64 "light w" ≡ "bGlnaHQgdw=="
unfolding base64
base64_few = refl
