-- ===== src/Dispatcher/Route/Chosen.antt =====
-- core/app/dispatcher/default.go, `routedDispatch`: the outbound that serves a connection.
use zicnode.Prelude.{Bool, String, ◌≡◌, Option, none, some, string_key, arith, ◌==◌, if◌then◌else◌}
use zicnode.Dispatcher.Route.{Route, OutboundManager, Routed, dropped, dispatched, routed_dispatch}

-- The tag that the session or the router's rule asks for.
abbrev pub wanted : String → Option (Option Route) → Option String
wanted forced pick_route =
    if forced == ""
    then (elim pick_route [
      | none ↦ none
      | some none ↦ none
      | some (some route) ↦ some route.outbound_tag
    ])
    else some forced

module _ {ℓ} {Handler : Type ℓ} (tag_of : Handler → String) where
  abbrev pub served_by : Routed tag_of → Option Handler
  served_by (dropped fields) = none
  served_by (dispatched h tag message) = some h

  -- A named outbound serves or the connection is dropped: the default outbound serves only where
  -- neither the session nor a rule names one.
  pub routed_dispatch-served_by :
      (ohm : OutboundManager tag_of) (pick_route : Option (Option Route)) (forced in_tag : String)
      (has_message : Bool) (destination : Option String)
      → served_by (routed_dispatch tag_of ohm pick_route forced in_tag has_message destination)
        ≡ elim (wanted forced pick_route) [
          | none ↦ ohm.default_handler
          | some tag ↦ ohm.get_handler tag
        ]
  unfolding routed_dispatch
  routed_dispatch-served_by ohm pick_route forced in_tag has_message destination = ground arith
