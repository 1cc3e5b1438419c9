-- ===== src/Core/Warp/Base64.antt =====
-- The decoders of `encoding/base64` that core/warp.go tries on a client's id, and their bounds.
use Prim.Native.Char.{Char, code}
use zicnode.Prelude.{
  digit, ◌≢◌, ℕ, suc, Bool, true, false, ◌&&◌, String, Option, none, some, List, [], ◌∷◌, ◌+◌, ◌*◌,
  ◌/◌, ◌%◌, ◌<◌, ◌≡◌, refl, nat_beq, string_key, ◌==◌, if◌then◌else◌, arith,
}
use zicnode.Core.Warp.{AreBytes}

-- The position of a character.
position : Char → String → Option ℕ
position c String.[] = none
position c (String.◌∷◌ d s) =
    let rest = position c s in
    if nat_beq (code c) (code d) then some 0 else elim rest [ none ↦ none | some n ↦ some (suc n) ]

-- An encoding: the last two digits, and whether `=` fills the last group.
pub record Encoding : Type 0 where
  pub letters : String
  pub padded : Bool

abbrev std_letters : String
std_letters = "ABCDEFGHIJKLMNOPQRSTUVWXYZabcdefghijklmnopqrstuvwxyz0123456789+/"

abbrev url_letters : String
url_letters = "ABCDEFGHIJKLMNOPQRSTUVWXYZabcdefghijklmnopqrstuvwxyz0123456789-_"

abbrev pub std_encoding : Encoding
std_encoding = record { letters = std_letters; padded = true }

abbrev pub raw_std_encoding : Encoding
raw_std_encoding = record { letters = std_letters; padded = false }

abbrev pub url_encoding : Encoding
url_encoding = record { letters = url_letters; padded = true }

abbrev pub raw_url_encoding : Encoding
raw_url_encoding = record { letters = url_letters; padded = false }

value : Encoding → Char → Option ℕ
unfolding position
value e c = elim (position c e.letters) [ none ↦ none | some n ↦ some (n % 64) ]

-- Groups of two, three and four digits.
one_byte : Option ℕ → Option ℕ → Option (List ℕ)
one_byte (some a) (some b) = some ((a * 4 + b / 16) ∷ [])
one_byte _ _ = none

two_bytes : Option ℕ → Option ℕ → Option ℕ → Option (List ℕ)
two_bytes (some a) (some b) (some c) = some ((a * 4 + b / 16) ∷ (b % 16 * 16 + c / 4) ∷ [])
two_bytes _ _ _ = none

three_bytes : Option ℕ → Option ℕ → Option ℕ → Option ℕ → Option (List ℕ) → Option (List ℕ)
three_bytes (some a) (some b) (some c) (some d) (some rest) =
    some ((a * 4 + b / 16) ∷ (b % 16 * 16 + c / 4) ∷ (c % 4 * 64 + d) ∷ rest)
three_bytes _ _ _ _ _ = none

unpadded : Bool → Option (List ℕ) → Option (List ℕ)
unpadded true r = none
unpadded false r = r

is_fill : Char → Bool
is_fill c = nat_beq (code c) 61

decode_groups : Encoding → String → Option (List ℕ)
unfolding value one_byte two_bytes three_bytes unpadded is_fill
decode_groups e String.[] = some []
decode_groups e (String.◌∷◌ a String.[]) = none
decode_groups e (String.◌∷◌ a (String.◌∷◌ b String.[])) =
    unpadded e.padded (one_byte (value e a) (value e b))
decode_groups e (String.◌∷◌ a (String.◌∷◌ b (String.◌∷◌ c String.[]))) =
    unpadded e.padded (two_bytes (value e a) (value e b) (value e c))
decode_groups e (String.◌∷◌ a (String.◌∷◌ b (String.◌∷◌ c (String.◌∷◌ d s)))) =
    let rest = decode_groups e s in
    if e.padded && is_fill d && s == ""
    then (if is_fill c
        then one_byte (value e a) (value e b)
        else two_bytes (value e a) (value e b) (value e c))
    else three_bytes (value e a) (value e b) (value e c) (value e d) rest

-- Ends of lines are skipped.
without_breaks : String → String
without_breaks String.[] = String.[]
without_breaks (String.◌∷◌ c s) =
    let rest = without_breaks s in
    if nat_beq (code c) 10 then rest else if nat_beq (code c) 13 then rest else String.◌∷◌ c rest

-- Encoding.DecodeString, `none` where it fails
unfoldable pub decode_string : Encoding → String → Option (List ℕ)
unfolding decode_groups without_breaks
decode_string e s = decode_groups e (without_breaks s)

-- Encoding.EncodeToString of bytes
unfoldable pub encode_bytes : List ℕ → String
unfolding digit
encode_bytes [] = ""
encode_bytes (a ∷ []) = String.◌∷◌ (digit (a / 4)) (String.◌∷◌ (digit (a % 4 * 16)) "==")
encode_bytes (a ∷ b ∷ []) =
    String.◌∷◌ (digit (a / 4))
      (String.◌∷◌ (digit (a % 4 * 16 + b / 16)) (String.◌∷◌ (digit (b % 16 * 4)) "="))
encode_bytes (a ∷ b ∷ c ∷ bs) = String.◌∷◌ (digit (a / 4)) (
    String.◌∷◌ (digit (a % 4 * 16 + b / 16))
      (String.◌∷◌ (digit (b % 16 * 4 + c / 64)) (String.◌∷◌ (digit (c % 64)) (encode_bytes bs))))

pub encode_bytes_nonempty : (b : ℕ) (bs : List ℕ) → encode_bytes (b ∷ bs) ≢ ""
unfolding encode_bytes
encode_bytes_nonempty a [] = λ p. cc
encode_bytes_nonempty a (b ∷ []) = λ p. cc
encode_bytes_nonempty a (b ∷ c ∷ bs) = λ p. cc

abbrev pub AllBytes : Option (List ℕ) → Type 0
AllBytes none = Unit
AllBytes (some bs) = AreBytes bs

abbrev Small : Option ℕ → Type 0
Small none = Unit
Small (some n) = n < 64

value-Small : (e : Encoding) (c : Char) → Small (value e c)
unfolding value
value-Small e c = ground arith

one_byte-AllBytes : (a b : Option ℕ) → Small a → Small b → AllBytes (one_byte a b)
unfolding one_byte
one_byte-AllBytes (some a) (some b) p q = ground arith
one_byte-AllBytes none b p q = tt
one_byte-AllBytes (some a) none p q = tt

two_bytes-AllBytes : (a b c : Option ℕ) → Small a → Small b → Small c → AllBytes (two_bytes a b c)
unfolding two_bytes
two_bytes-AllBytes (some a) (some b) (some c) p q r = ground arith
two_bytes-AllBytes none b c p q r = tt
two_bytes-AllBytes (some a) none c p q r = tt
two_bytes-AllBytes (some a) (some b) none p q r = tt

three_bytes-AllBytes :
    (a b c d : Option ℕ) (rest : Option (List ℕ))
    → Small a
    → Small b
    → Small c
    → Small d
    → AllBytes rest
    → AllBytes (three_bytes a b c d rest)
unfolding three_bytes
three_bytes-AllBytes (some a) (some b) (some c) (some d) (some rest) p q r s h = ground arith
three_bytes-AllBytes none b c d rest p q r s h = tt
three_bytes-AllBytes (some a) none c d rest p q r s h = tt
three_bytes-AllBytes (some a) (some b) none d rest p q r s h = tt
three_bytes-AllBytes (some a) (some b) (some c) none rest p q r s h = tt
three_bytes-AllBytes (some a) (some b) (some c) (some d) none p q r s h = tt

unpadded-AllBytes : (b : Bool) (r : Option (List ℕ)) → AllBytes r → AllBytes (unpadded b r)
unfolding unpadded
unpadded-AllBytes true r h = tt
unpadded-AllBytes false r h = h

decode_groups-AllBytes : (e : Encoding) (s : String) → AllBytes (decode_groups e s)
unfolding decode_groups
decode_groups-AllBytes e String.[] = tt
decode_groups-AllBytes e (String.◌∷◌ a String.[]) = tt
decode_groups-AllBytes e (String.◌∷◌ a (String.◌∷◌ b String.[])) =
    unpadded-AllBytes e.padded (one_byte (value e a) (value e b))
      (one_byte-AllBytes (value e a) (value e b) (value-Small e a) (value-Small e b))
decode_groups-AllBytes e (String.◌∷◌ a (String.◌∷◌ b (String.◌∷◌ c String.[]))) =
    unpadded-AllBytes e.padded (two_bytes (value e a) (value e b) (value e c)) (
      two_bytes-AllBytes (value e a) (value e b) (value e c) (value-Small e a) (value-Small e b)
        (value-Small e c))
decode_groups-AllBytes e (String.◌∷◌ a (String.◌∷◌ b (String.◌∷◌ c (String.◌∷◌ d s)))) = ground (
  arith,
  one_byte-AllBytes (value e a) (value e b) (value-Small e a) (value-Small e b),
  two_bytes-AllBytes (value e a) (value e b) (value e c) (value-Small e a) (value-Small e b)
      (value-Small e c),
  three_bytes-AllBytes (value e a) (value e b) (value e c) (value e d) (decode_groups e s)
      (value-Small e a) (value-Small e b) (value-Small e c) (value-Small e d)
      (decode_groups-AllBytes e s),
)

pub decode_string-AllBytes : (e : Encoding) (s : String) → AllBytes (decode_string e s)
unfolding decode_string
decode_string-AllBytes e s = decode_groups-AllBytes e (without_breaks s)

-- Known values.
decode_string_values :
    (decode_string std_encoding "TWFu" ≡ some (77 ∷ 97 ∷ 110 ∷ []))
    × (decode_string std_encoding "TWE=" ≡ some (77 ∷ 97 ∷ []))
    × (decode_string std_encoding "TWE" ≡ none)
    × (decode_string raw_url_encoding "TW_-" ≡ some (77 ∷ 111 ∷ 254 ∷ []))
unfolding decode_string
decode_string_values = (refl, refl, refl, refl)
