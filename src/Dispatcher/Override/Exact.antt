-- ===== src/Dispatcher/Override/Exact.antt =====
-- core/app/dispatcher/default.go: when a sniffed domain replaces the destination.
use zicnode.Prelude.{
  to_lower, Bool, true, false, ◌&&◌, ◌||◌, String, ◌≡◌, refl, ◌⊎◌, inl, inr, Bool-cases, Option,
  some, List, [], ◌∷◌, string_key, arith, ◌==◌, if◌then◌else◌,
}
use zicnode.Dispatcher.Override.{
  SniffResult, Address, SniffingRequest, Outbound, matches, overrides, any_overrides,
  should_override, routes_only, redirect,
}

abbrev pub IsIn : String → List String → Type 0
IsIn p [] = ⊥
IsIn p (q ∷ qs) = (p ≡ q) ⊎ IsIn p qs

module _ (parse_address : String → Address) (fake_pool : Option (Address → Bool)) where
  abbrev pub excluded : SniffResult → SniffingRequest → Address → Bool
  excluded result request destination =
      result.domain == ""
      || matches request.exclude_for_domain (to_lower result.domain)
      || destination.is_ip && matches request.exclude_for_ip destination

  any_overrides-IsIn :
      (result : SniffResult) (destination : Address) (ps : List String)
      → any_overrides parse_address fake_pool result destination ps ≡ true
      → (p : String) × IsIn p ps × (overrides parse_address fake_pool result destination p ≡ true)
  unfolding any_overrides
  any_overrides-IsIn result destination [] h = ground arith
  any_overrides-IsIn result destination (q ∷ qs) h =
      let first = overrides parse_address fake_pool result destination q in
      elim (Bool-cases first) [
        | inl e ↦ (q, inl refl, e)
        | inr e ↦
            let later : any_overrides parse_address fake_pool result destination qs ≡ true =
              ground (arith, e, h) in
            let (p, i, f) = any_overrides-IsIn result destination qs later in (p, inr i, f)
      ]

  IsIn-any_overrides :
      (result : SniffResult) (destination : Address) (p : String) (ps : List String)
      → IsIn p ps
      → overrides parse_address fake_pool result destination p ≡ true
      → any_overrides parse_address fake_pool result destination ps ≡ true
  unfolding any_overrides
  IsIn-any_overrides result destination p [] i h = ground arith
  IsIn-any_overrides result destination p (q ∷ qs) i h =
      ground (arith, i, IsIn-any_overrides result destination p qs)

  -- What becomes of the destination and of the session's outbound.
  pub record IsRedirected (checks_ip : Bool) (result : SniffResult) (request : SniffingRequest)
      (destination : Address) (ob : Outbound) (r : Address × Outbound) : Type 0 where
    pub replaced :
        (p : String)
        → IsIn p request.override_destination_for_protocol
        → overrides parse_address fake_pool result destination p ≡ true
        → excluded result request destination ≡ false
        → r ≡ (
          parse_address result.domain,
          if routes_only parse_address fake_pool checks_ip result request ob
              then record ob { route_target = some (parse_address result.domain) }
              else record ob { target = parse_address result.domain },
        )
    pub kept :
        ((p : String)
          → IsIn p request.override_destination_for_protocol
          → overrides parse_address fake_pool result destination p ≡ true
          → excluded result request destination ≡ true)
        → r ≡ (destination, ob)

  -- Where some protocol of the request is one that the result overrides and nothing excludes the
  -- destination, the destination is the sniffed domain, and so is the target or, under route-only,
  -- the route target; where there is no such protocol, or only excluded ones, the destination and
  -- the session's outbound stay.
  pub redirect-IsRedirected :
      (checks_ip : Bool) (result : SniffResult) (request : SniffingRequest) (destination : Address)
      (ob : Outbound)
      → IsRedirected checks_ip result request destination ob
          (redirect parse_address fake_pool checks_ip (some result) request destination ob)
  unfolding redirect should_override
  redirect-IsRedirected checks_ip result request destination ob = record {
    replaced = λ p i o x. ground (
      arith,
      x,
      IsIn-any_overrides result destination p request.override_destination_for_protocol i o,
    );
    kept = λ none_in.
        let ps = request.override_destination_for_protocol in
        elim (Bool-cases (any_overrides parse_address fake_pool result destination ps)) [
          | inl e ↦
              let (p, i, o) = any_overrides-IsIn result destination ps e in
              let x = none_in p i o in ground (arith, x)
          | inr e ↦ ground (arith, e)
        ];
  }
