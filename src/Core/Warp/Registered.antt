-- ===== src/Core/Warp/Registered.antt =====
-- core/warp.go: what a registration makes of the settings.
use zicnode.Prelude.{
  Members, ℕ, true, false, Bool, String, Option, none, some, List, [], ◌∷◌, ◌≡◌, ◌≢◌, refl, arith,
  inl, inr, Option-cases, if◌then◌else◌, ◌==◌, str_iff, string_key, trim_space,
}
use zicnode.Panel.Config.{WarpSettings}
use zicnode.Core.Warp.Base64.{encode_bytes, encode_bytes_nonempty}
use zicnode.Core.Warp.{
  RuntimeConfig, non_default_warp_endpoint, warp_default_endpoint, AreBytes, first_non_empty,
}
use zicnode.Core.Warp.Normal.{AreTrimmed, clean_string_list-AreTrimmed, endpoint_trimmed}
use zicnode.Core.Warp.Response.{
  or_bytes, choose_addresses, runtime_from_warp_register_response, map_value, first_map,
  slice_value, string_value, endpoint_from_peer, addresses_from_warp_response,
  reserved_from_warp_response,
}
use zicnode.Core.Warp.Resolve.{
  Seed, clamp, Result, failed, resolved, registered_as, read_reply, Service, register_warp_identity,
  generate_wire_guard_key_pair, decoded_map, WarpError, bad_body, no_keys, no_answer,
}
use zicnode.Core.Warp.Bytes.{reserved_from_warp_response-AreBytes}

addresses_from_warp_response-AreTrimmed :
    (config : Option Members) → AreTrimmed (addresses_from_warp_response config)
unfolding addresses_from_warp_response
addresses_from_warp_response-AreTrimmed config = clean_string_list-AreTrimmed _

-- What a registration made of the settings.
pub record IsRegistered (s : WarpSettings) (c : RuntimeConfig) : Type 0 where
  pub private_key : c.private_key ≢ ""
  pub peers : List String
  pub peer_public_key : c.peer_public_key ≡ first_non_empty (s.peer_public_key ∷ peers)
  pub has_peer : first_non_empty (s.peer_public_key ∷ peers) ≢ ""
  pub endpoints : List String
  pub endpoint : c.endpoint ≡ first_non_empty (non_default_warp_endpoint s.endpoint ∷ endpoints)
  pub has_endpoint : first_non_empty (non_default_warp_endpoint s.endpoint ∷ endpoints) ≢ ""
  pub given : List String
  pub given_trimmed : AreTrimmed given
  pub addresses : c.addresses ≡ choose_addresses given s.addresses
  pub bytes : List ℕ
  pub bytes_there : AreBytes bytes
  pub reserved : c.reserved ≡ or_bytes s.reserved bytes
  pub mtu : c.mtu ≡ s.mtu
  pub domain_strategy : c.domain_strategy ≡ s.domain_strategy
  pub source : c.source ≡ "auto"

-- What a result says of a registration.
abbrev pub Registers : WarpSettings → Result → Type 0
Registers s (failed e) = Unit
Registers s (resolved c) = IsRegistered s c

choice-Registers :
    (s : WarpSettings) (b : Bool) (c : RuntimeConfig)
    → (b ≡ false → IsRegistered s (record c { source = "auto" }))
    → Registers s (registered_as (if b then none else some c))
choice-Registers s true c h = tt
choice-Registers s false c h = h refl

default_there : warp_default_endpoint ≢ ""
default_there = λ p. cc

pub default_last : (x y : String) → first_non_empty (x ∷ y ∷ warp_default_endpoint ∷ []) ≢ ""
unfolding first_non_empty
default_last x y =
    rw endpoint_trimmed
      (ground (arith, default_there, str_iff (trim_space x) "", str_iff (trim_space y) ""))

response-Registers :
    (raw : Option Members) (s : WarpSettings) (private_key public_key : String)
    → private_key ≢ ""
    → Registers s (registered_as (runtime_from_warp_register_response raw s private_key public_key))
unfolding runtime_from_warp_register_response
response-Registers raw s private_key public_key h =
    let config = map_value raw "config" in
    let peer = first_map (slice_value config "peers") in
    let peers = string_value peer "public_key" ∷ string_value peer "publicKey" ∷ [] in
    choice-Registers s (first_non_empty (s.peer_public_key ∷ peers) == "") _ (λ e. record {
      private_key = h;
      peers = peers;
      peer_public_key = refl;
      has_peer = ground (arith, str_iff (first_non_empty (s.peer_public_key ∷ peers)) "");
      endpoints = endpoint_from_peer peer ∷ warp_default_endpoint ∷ [];
      endpoint = refl;
      has_endpoint = default_last (non_default_warp_endpoint s.endpoint) (endpoint_from_peer peer);
      given = addresses_from_warp_response config;
      given_trimmed = addresses_from_warp_response-AreTrimmed config;
      addresses = refl;
      bytes = reserved_from_warp_response raw config;
      bytes_there = reserved_from_warp_response-AreBytes raw config;
      reserved = refl;
      mtu = refl;
      domain_strategy = refl;
      source = refl;
    })

status-Registers :
    (s : WarpSettings) (b : Bool) (e : WarpError) (r : Result)
    → Registers s r
    → Registers s (if b then failed e else r)
status-Registers s true e r h = tt
status-Registers s false e r h = h

body-Registers :
    (s : WarpSettings) (private_key public_key : String) (o : Option (Option Members))
    → private_key ≢ ""
    → Registers s (elim o [
      | none ↦ failed bad_body
      | some raw ↦ registered_as (runtime_from_warp_register_response raw s private_key public_key)
    ])
body-Registers s private_key public_key none h = tt
body-Registers s private_key public_key (some raw) h =
    response-Registers raw s private_key public_key h

keys-Registers :
    (service : Service) (s : WarpSettings) (keys : Option (String × String))
    → ((k : String × String) → keys ≡ some k → k.0 ≢ "")
    → Registers s (elim keys [
      | none ↦ failed no_keys
      | some keys ↦ elim (service.reply keys.1) [
        | none ↦ failed no_answer
        | some reply ↦ read_reply s keys.0 keys.1 reply
      ]
    ])
keys-Registers service s none h = tt
keys-Registers service s (some k) h = elim (Option-cases (service.reply k.1)) [
  | inl e ↦ rw e tt
  | inr (reply, e) ↦
      rw e (status-Registers s _ _ _ (body-Registers s k.0 k.1 (decoded_map reply.body) (h k refl)))
]

public-nonempty :
    (b : ℕ) (bs : List ℕ) (o : Option (List ℕ)) (k : String × String)
    → elim o [ none ↦ none | some key ↦ some (encode_bytes (b ∷ bs), encode_bytes key) ] ≡ some k
    → k.0 ≢ ""
public-nonempty b bs none k h = ground arith
public-nonempty b bs (some key) k h = ground (arith, encode_bytes_nonempty b bs)

seed-nonempty :
    (public : List ℕ → Option (List ℕ)) (o : Option Seed) (k : String × String)
    → elim o [
      | none ↦ none
      | some seed ↦ elim (public (clamp seed)) [
        | none ↦ none
        | some key ↦ some (encode_bytes (clamp seed), encode_bytes key)
      ]
    ]
      ≡ some k
    → k.0 ≢ ""
unfolding clamp
seed-nonempty public none k h = ground arith
seed-nonempty public (some seed) k h = public-nonempty _ _ (public (clamp seed)) k h

pair-nonempty :
    (service : Service) (k : String × String)
    → generate_wire_guard_key_pair service ≡ some k
    → k.0 ≢ ""
unfolding generate_wire_guard_key_pair
pair-nonempty service k h = seed-nonempty service.public_bytes service.seed k h

pub register_warp_identity-Registers :
    (service : Service) (s : WarpSettings) → Registers s (register_warp_identity service s)
unfolding register_warp_identity
register_warp_identity-Registers service s =
    keys-Registers service s (generate_wire_guard_key_pair service) (pair-nonempty service)
