-- ===== src/Prelude/Trim.antt =====
-- strings.TrimSpace.
use Prim.Native.Char.{Char, code}
use Prim.Native.String.{String}
use mathlib.Core.Path.{◌≡◌, refl, sym, ap, ◌∙◌}
use mathlib.Core.Bool.{Bool, true, false, ◌&&◌, ◌||◌}
use native.Mathlib.Omega.{arith}
use zicnode.Prelude.Tests.{nat_beq, leb, if◌then◌else◌}

-- unicode.IsSpace up to U+00FF
is_space : Char → Bool
is_space c =
    (leb 9 (code c) && leb (code c) 13)
    || nat_beq (code c) 32
    || nat_beq (code c) 133
    || nat_beq (code c) 160

trim_left : String → String
unfolding is_space
trim_left String.[] = String.[]
trim_left (String.◌∷◌ c s) = let rest = trim_left s in if is_space c then rest else String.◌∷◌ c s

-- A character in front of a text that has no space at its end; `b` says whether it is a space.
keep : Bool → Char → String → String
keep true c String.[] = String.[]
keep false c String.[] = String.◌∷◌ c String.[]
keep b c (String.◌∷◌ d t) = String.◌∷◌ c (String.◌∷◌ d t)

trim_right : String → String
unfolding keep is_space
trim_right String.[] = String.[]
trim_right (String.◌∷◌ c s) = keep (is_space c) c (trim_right s)

-- strings.TrimSpace
unfoldable pub trim_space : String → String
unfolding trim_left trim_right
trim_space s = trim_left (trim_right s)

trim_left_twice : (s : String) → trim_left (trim_left s) ≡ trim_left s
unfolding trim_left
trim_left_twice String.[] = refl
trim_left_twice (String.◌∷◌ c s) = ground (arith, trim_left_twice s)

trim_right-keep :
    (b : Bool) (c : Char) (r : String)
    → is_space c ≡ b
    → trim_right r ≡ r
    → trim_right (keep b c r) ≡ keep b c r
unfolding trim_right keep
trim_right-keep true c String.[] e h = refl
trim_right-keep false c String.[] e h = ap (λ b. keep b c String.[]) e
trim_right-keep true c (String.◌∷◌ d t) e h = ap (keep (is_space c) c) h
trim_right-keep false c (String.◌∷◌ d t) e h = ap (keep (is_space c) c) h

trim_left-keep :
    (b : Bool) (c : Char) (r : String)
    → is_space c ≡ b
    → trim_left (keep b c r) ≡ (if b then trim_left r else keep b c r)
unfolding trim_left keep
trim_left-keep true c String.[] e = refl
trim_left-keep false c String.[] e =
    ap (λ b. if b then trim_left String.[] else String.◌∷◌ c String.[]) e
trim_left-keep true c (String.◌∷◌ d t) e =
    ap (λ b. if b then trim_left (String.◌∷◌ d t) else String.◌∷◌ c (String.◌∷◌ d t)) e
trim_left-keep false c (String.◌∷◌ d t) e =
    ap (λ b. if b then trim_left (String.◌∷◌ d t) else String.◌∷◌ c (String.◌∷◌ d t)) e

trim_right_twice : (s : String) → trim_right (trim_right s) ≡ trim_right s
unfolding trim_right
trim_right_twice String.[] = refl
trim_right_twice (String.◌∷◌ c s) =
    trim_right-keep (is_space c) c (trim_right s) refl (trim_right_twice s)

-- Trimming at the end under the choice that `trim_left` makes.
trim_right-choice :
    (b : Bool) (c : Char) (s : String)
    → is_space c ≡ b
    → trim_right (trim_left s) ≡ trim_left (trim_right s)
    → trim_right (if b then trim_left s else String.◌∷◌ c s)
      ≡ (if b then trim_left (trim_right s) else keep b c (trim_right s))
unfolding trim_right
trim_right-choice true c s e h = h
trim_right-choice false c s e h = ap (λ b. keep b c (trim_right s)) e

trim_right-trim_left : (s : String) → trim_right (trim_left s) ≡ trim_left (trim_right s)
unfolding trim_right trim_left
trim_right-trim_left String.[] = refl
trim_right-trim_left (String.◌∷◌ c s) =
    trim_right-choice (is_space c) c s refl (trim_right-trim_left s)
    ∙ sym (trim_left-keep (is_space c) c (trim_right s) refl)

-- A text that has been trimmed stays as it is.
pub trim_space_twice : (s : String) → trim_space (trim_space s) ≡ trim_space s
unfolding trim_space
trim_space_twice s =
    ap trim_left (trim_right-trim_left (trim_right s))
    ∙ trim_left_twice (trim_right (trim_right s))
    ∙ ap trim_left (trim_right_twice s)
