-- ===== src/Dispatcher/Route.antt =====
-- core/app/dispatcher/default.go, `routedDispatch`: which outbound a connection goes to. The
-- outbound manager and the router are the proxy engine's.
pub mod Chosen
use zicnode.Prelude.{
  ℕ, Bool, true, false, not, String, Option, none, some, List, [], ◌∷◌, Map, string_key, ◌==◌,
  if◌then◌else◌,
}
use Prim.Native.String.{◌++◌}
use zicnode.Dispatcher.Log.{Fields, route_drop_fields}

pub record Route : Type 0 where
  pub outbound_tag : String
  pub rule_tag : String

module _ {ℓ} {Handler : Type ℓ} (tag_of : Handler → String) where
  pub record OutboundManager : Type ℓ where
    pub get_handler : String → Option Handler
    pub default_handler : Option Handler

  -- isPickRoute
  pub data Picked : Type 0 where
    by_default by_force by_rule : Picked

  -- Closed and interrupted after what is logged, or given to a handler: the tag that the session
  -- gets, and the detour of the access message, where one is written.
  pub data Routed : Type ℓ where
    dropped : Fields → Routed
    dispatched : Handler → String → Option String → Routed

  unfoldable pub detour : String → String → Picked → String
  detour in_tag tag picked = if in_tag == "" then tag else elim picked [
    | by_force ↦ in_tag ++ (" ==> " ++ tag)
    | by_rule ↦ in_tag ++ (" -> " ++ tag)
    | by_default ↦ in_tag ++ (" >> " ++ tag)
  ]

  unfoldable pub hand_over : String → Bool → Picked → Handler → Routed
  unfolding detour
  hand_over in_tag has_message picked h =
      let tag = tag_of h in
      dispatched h tag (
        if has_message
        then (if not (tag == "") then some (detour in_tag tag picked) else none)
        else none)

  -- The session names the outbound.
  unfoldable pub named : OutboundManager → String → String → Bool → Option String → Picked → Routed
  unfolding hand_over
  named ohm in_tag tag has_message destination picked = elim (ohm.get_handler tag) [
    | some h ↦ hand_over in_tag has_message picked h
    | none ↦ dropped (route_drop_fields "route_outbound_missing" in_tag tag destination)
  ]

  unfoldable pub by_default_handler : OutboundManager → String → Bool → Option String → Routed
  unfolding hand_over
  by_default_handler ohm in_tag has_message destination = elim ohm.default_handler [
    | some h ↦ hand_over in_tag has_message by_default h
    | none ↦ dropped (route_drop_fields "default_outbound_missing" in_tag "" destination)
  ]

  -- `pick_route` is `none` without a router; the inner `none` is the router's error.
  unfoldable pub routed_dispatch :
      OutboundManager → Option (Option Route) → String → String → Bool → Option String → Routed
  unfolding named by_default_handler
  routed_dispatch ohm pick_route forced in_tag has_message destination =
      if not (forced == "")
      then named ohm in_tag forced has_message destination by_force
      else elim pick_route [
        | none ↦ by_default_handler ohm in_tag has_message destination
        | some none ↦ by_default_handler ohm in_tag has_message destination
        | some (some route) ↦ named ohm in_tag route.outbound_tag has_message destination by_rule
      ]
