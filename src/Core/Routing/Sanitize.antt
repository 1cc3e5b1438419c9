-- ===== src/Core/Routing/Sanitize.antt =====
-- core/custom.go: the outbound of a custom route, without `allowInsecure`.
use zicnode.Prelude.{
  Bool, false, not, ◌||◌, String, Option, none, some, trim_space, is_some, string_key, ◌==◌,
  if◌then◌else◌, Json, Members, null, string, object, last, member, value_of, has_suffix,
}
use zicnode.Core.Routing.{Engine}

-- A JSON object as a map: of two values of a key the later one is there.
abbrev as_map : Members → Members
as_map last = last
as_map (member k v ms) =
    let rest = as_map ms in if is_some (value_of k ms) then rest else member k v rest

abbrev pub drop_key : String → Members → Members
drop_key key last = last
drop_key key (member k v ms) =
    let rest = drop_key key ms in if k == key then rest else member k v rest

-- What the loop over the stream settings has found, and what it leaves.
pub record Swept : Type 0 where
  pub settings : Members
  pub removed : Bool
  pub pinned : Bool

abbrev is_pinned : Option Json → Bool
is_pinned (some (string s)) = not (trim_space s == "")
is_pinned _ = false

abbrev sweep_value : String → Json → Swept → Swept
sweep_value k (object inner) r =
    if has_suffix k "Settings"
    then record {
      settings = member k (object (drop_key "allowInsecure" inner)) r.settings;
      removed = is_some (value_of "allowInsecure" inner) || r.removed;
      pinned = is_pinned (value_of "pinnedPeerCertSha256" inner) || r.pinned;
    }
    else record r { settings = member k (object inner) r.settings }
sweep_value k v r = record r { settings = member k v r.settings }

unfoldable pub sweep : Members → Swept
unfolding has_suffix value_of trim_space
sweep last = record { settings = last; removed = false; pinned = false }
sweep (member k v ms) = sweep_value k v (sweep ms)

abbrev put_value : String → Json → Members → Members
put_value key new last = last
put_value key new (member k v ms) =
    let rest = put_value key new ms in if k == key then member k new rest else member k v rest

-- The JSON that is decoded further, whether something was removed, and whether a peer is pinned.
pub record Cleaned : Type 0 where
  pub json : Json
  pub removed : Bool
  pub pinned : Bool

abbrev of_swept : Members → Swept → Cleaned
of_swept raw s = record {
  json =
      if s.removed
      then object (put_value "streamSettings" (object s.settings) (as_map raw))
      else object raw;
  removed = s.removed;
  pinned = s.pinned;
}

abbrev clean_object : Members → Option Json → Cleaned
clean_object raw (some (object stream)) = of_swept raw (sweep (as_map stream))
clean_object raw _ = record { json = object raw; removed = false; pinned = false }

-- `none` is an error of decoding the text into a map.
unfoldable pub sanitize_custom_route_outbound : Option Json → Option Cleaned
unfolding sweep value_of
sanitize_custom_route_outbound (some (object raw)) =
    some (clean_object raw (value_of "streamSettings" raw))
sanitize_custom_route_outbound (some null) =
    some (record { json = null; removed = false; pinned = false })
sanitize_custom_route_outbound _ = none

-- The outbound with the two findings.
pub record Parsed (D : Type 0) : Type 0 where
  pub outbound : D
  pub removed : Bool
  pub pinned : Bool

abbrev parsed_of : {H D : Type 0} → Engine H D → Option Cleaned → Option (Parsed D)
parsed_of e none = none
parsed_of e (some c) = elim (e.outbound_of c.json) [
  | none ↦ none
  | some o ↦ some (record { outbound = o; removed = c.removed; pinned = c.pinned })
]

unfoldable pub parse_custom_route_outbound :
    {H D : Type 0} → Engine H D → String → Option (Parsed D)
unfolding sanitize_custom_route_outbound
parse_custom_route_outbound e value = parsed_of e (sanitize_custom_route_outbound (e.parse value))
