-- ===== src/Prelude/Values.antt =====
-- JSON values as `encoding/json` decodes them. A number keeps its literal; the value of one that no
-- float64 reaches is that of zero, which is what the program makes of it.
use Prim.Native.String.{String}
use mathlib.Core.Bool.{Bool}
use mathlib.Core.List.{List, [], ◌∷◌}
use mathlib.Core.Option.{Option, none, some}
use zicnode.Prelude.Tests.{if◌then◌else◌}
use zicnode.Prelude.Equality.{string_key, ◌==◌}
use zicnode.Prelude.Search.{equal_fold}
use zicnode.Prelude.Decimal.{Float}

pub record Number : Type 0 where
  pub literal : String
  pub value : Float

mutual
  pub data Json : Type 0 where
    null : Json
    truth : Bool → Json
    number : Number → Json
    string : String → Json
    array : Items → Json
    object : Members → Json

  pub data Items : Type 0 where
    empty : Items
    item : Json → Items → Items

  pub data Members : Type 0 where
    last : Members
    member : String → Json → Members → Members

abbrev pub items : Items → List Json
items empty = []
items (item v vs) = v ∷ items vs

-- The value of a key; of two values the later one counts.
unfoldable pub value_of : String → Members → Option Json
value_of key last = none
value_of key (member k v ms) = elim (value_of key ms) [
  | some w ↦ some w
  | none ↦ if k == key then some v else none
]

-- The value of a field of a struct: names are compared without regard to case, and the last counts.
unfoldable pub field_of : String → Members → Option Json
unfolding equal_fold
field_of key last = none
field_of key (member k v ms) = elim (field_of key ms) [
  | some w ↦ some w
  | none ↦ if equal_fold k key then some v else none
]
