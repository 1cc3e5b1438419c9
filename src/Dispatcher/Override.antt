-- ===== src/Dispatcher/Override.antt =====
-- core/app/dispatcher/default.go, `shouldOverride` and what `Dispatch` and `DispatchLink` do with a
-- sniffed domain. Addresses are strings; `net.ParseAddress` and the fake DNS pool are
-- parameters.
pub mod Exact
use zicnode.Prelude.{
  to_lower, Bool, true, false, not, ◌&&◌, ◌||◌, String, Option, none, some, List, [], ◌∷◌,
  has_prefix, string_key, ◌==◌, if◌then◌else◌,
}

-- SniffResult, with the interfaces that it may implement.
pub record SniffResult : Type 0 where
  pub domain : String
  pub protocol : String
  pub protocol_for_domain : Option String
  pub proto_subset_of : Option (String → Bool)

pub record Address : Type 0 where
  pub text : String
  pub is_ip : Bool

pub record SniffingRequest : Type 0 where
  pub enabled : Bool
  pub metadata_only : Bool
  pub route_only : Bool
  pub exclude_for_domain : Option (String → Bool)
  pub exclude_for_ip : Option (Address → Bool)
  pub override_destination_for_protocol : List String

-- The target and the route target of session.Outbound.
pub record Outbound : Type 0 where
  pub target : Address
  pub route_target : Option Address

abbrev pub matches {ℓ} : {A : Type ℓ} → Option (A → Bool) → A → Bool
matches none a = false
matches (some f) a = f a

module _ (parse_address : String → Address) (fake_pool : Option (Address → Bool)) where
  abbrev pub protocol_of : SniffResult → String
  protocol_of r = elim r.protocol_for_domain [ none ↦ r.protocol | some p ↦ p ]

  -- The test that the loop makes of one protocol of the request.
  unfoldable pub overrides : SniffResult → Address → String → Bool
  overrides result destination p =
      let name = protocol_of result in
      (has_prefix name p || has_prefix p name)
      || (not (name == "bittorrent")
          && p == "fakedns"
          && destination.is_ip
          && matches fake_pool destination)
      || matches result.proto_subset_of p

  unfoldable pub any_overrides : SniffResult → Address → List String → Bool
  unfolding overrides
  any_overrides result destination [] = false
  any_overrides result destination (p ∷ ps) =
      let rest = any_overrides result destination ps in
      if overrides result destination p then true else rest

  unfoldable pub should_override : SniffResult → SniffingRequest → Address → Bool
  unfolding any_overrides
  should_override result request destination =
      if result.domain == ""
      then false
      else if matches request.exclude_for_domain (to_lower result.domain)
      then false
      else if destination.is_ip && matches request.exclude_for_ip destination
      then false
      else any_overrides result destination request.override_destination_for_protocol

  -- protocol != "fakedns" && protocol != "fakedns+others" && !isFakeIP, under RouteOnly.
  -- `checks_ip` says whether the address family is tested first: in `Dispatch` it is, in
  -- `DispatchLink` not.
  unfoldable pub routes_only : Bool → SniffResult → SniffingRequest → Outbound → Bool
  routes_only checks_ip result request ob =
      let name = protocol_of result in
      let is_fake_ip =
        (if checks_ip then ob.target.is_ip else true) && matches fake_pool ob.target in
      request.route_only
      && not (name == "fakedns")
      && not (name == "fakedns+others")
      && not is_fake_ip

  -- `sniffed` is none when sniffing failed. The destination given to the routing, and the session's
  -- outbound.
  unfoldable pub redirect :
      Bool → Option SniffResult → SniffingRequest → Address → Outbound → Address × Outbound
  unfolding should_override routes_only
  redirect checks_ip none request destination ob = (destination, ob)
  redirect checks_ip (some result) request destination ob =
      if should_override result request destination
      then (let destination' = parse_address result.domain in
          (
            destination',
            if routes_only checks_ip result request ob
                then record ob { route_target = some destination' }
                else record ob { target = destination' },
          ))
      else (destination, ob)
