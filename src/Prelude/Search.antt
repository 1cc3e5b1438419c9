-- ===== src/Prelude/Search.antt =====
-- What the program uses of the package `strings` to look into a text.
use Prim.Native.Char.{Char, code}
use Prim.Native.Nat.{ℕ, zero, suc}
use Prim.Native.String.{String}
use mathlib.Core.Path.{◌≡◌, refl}
use mathlib.Core.Bool.{Bool, true, false, ◌||◌}
use mathlib.Core.List.{List, [], ◌∷◌}
use mathlib.Core.Option.{Option, none, some}
use zicnode.Prelude.Tests.{nat_beq, is_some, if◌then◌else◌}
use zicnode.Prelude.Equality.{string_key, ◌==◌}
use zicnode.Prelude.Text.{has_prefix, to_lower}

-- strings.EqualFold on ASCII texts
unfoldable pub equal_fold : String → String → Bool
equal_fold s t = to_lower s == to_lower t

-- strings.Index
unfoldable pub index_of : String → String → Option ℕ
index_of String.[] part = if part == "" then some 0 else none
index_of (String.◌∷◌ c s) part =
    let rest = index_of s part in
    if has_prefix (String.◌∷◌ c s) part
    then some 0
    else elim rest [ none ↦ none | some i ↦ some (suc i) ]

-- strings.Contains
unfoldable pub contains : String → String → Bool
unfolding index_of
contains s part = is_some (index_of s part)

ends_with : String → String → Bool
ends_with String.[] part = part == ""
ends_with (String.◌∷◌ c s) part =
    let rest = ends_with s part in if String.◌∷◌ c s == part then true else rest

-- strings.HasSuffix
unfoldable pub has_suffix : String → String → Bool
unfolding ends_with
has_suffix s part = ends_with s part

-- The part of a text from a position on.
unfoldable pub drop_text : ℕ → String → String
drop_text zero s = s
drop_text (suc n) String.[] = String.[]
drop_text (suc n) (String.◌∷◌ c s) = drop_text n s

is_separator : Char → Bool
is_separator c = nat_beq (code c) 44 || nat_beq (code c) 10 || nat_beq (code c) 13

-- A character in front of the first field, or a new field.
grow : Char → Bool → List String → List String
grow c true fields = String.◌∷◌ c String.[] ∷ fields
grow c false [] = String.◌∷◌ c String.[] ∷ []
grow c false (f ∷ fields) = String.◌∷◌ c f ∷ fields

-- Whether a text begins with a separator or is at its end.
starts_apart : String → Bool
unfolding is_separator
starts_apart String.[] = true
starts_apart (String.◌∷◌ c s) = is_separator c

-- strings.FieldsFunc with commas and ends of lines as separators
unfoldable pub fields_of : String → List String
unfolding is_separator grow starts_apart
fields_of String.[] = []
fields_of (String.◌∷◌ c s) =
    let rest = fields_of s in if is_separator c then rest else grow c (starts_apart s) rest

fields_of_values : fields_of ",1, 2,,34" ≡ "1" ∷ " 2" ∷ "34" ∷ []
unfolding fields_of
fields_of_values = refl

index_of_values : (index_of "[a]" "]" ≡ some 2) × (contains "::1" ":" ≡ true)
unfolding contains has_prefix
index_of_values = (refl, refl)
