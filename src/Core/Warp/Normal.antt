-- ===== src/Core/Warp/Normal.antt =====
-- core/warp.go: `normalizeWarpSettings` and what its result is.
use zicnode.Prelude.{
  ◌↔◌, subst, ℤ, Bool, true, false, String, ◌≡◌, ◌≢◌, ◌⊎◌, refl, inl, inr, List, [], ◌∷◌, pos,
  leb_ℤ, ◌<ℤ◌, to_lower, trim_space, trim_space_twice, string_key, str_iff, ◌==◌, arith, Bool-cases,
  if◌then◌else◌,
}
use zicnode.Panel.Config.{WarpSettings}
use zicnode.Core.Warp.{
  warp_default_mtu, clean_string_list, valid_warp_domain_strategy, normalize_warp_settings, or_text,
  or_list, word, warp_default_endpoint, warp_default_addresses,
}

-- Texts that trimming leaves as they are and that are not empty.
abbrev pub AreTrimmed : List String → Type 0
AreTrimmed [] = Unit
AreTrimmed (x ∷ xs) = (trim_space x ≡ x) × (x ≢ "") × AreTrimmed xs

pub clean_string_list-AreTrimmed : (xs : List String) → AreTrimmed (clean_string_list xs)
unfolding clean_string_list
clean_string_list-AreTrimmed [] = tt
clean_string_list-AreTrimmed (x ∷ xs) =
    ground (arith, str_iff (trim_space x) "", trim_space_twice x, clean_string_list-AreTrimmed xs)

pub clean_string_list_of_AreTrimmed : (xs : List String) → AreTrimmed xs → clean_string_list xs ≡ xs
unfolding clean_string_list
clean_string_list_of_AreTrimmed [] h = refl
clean_string_list_of_AreTrimmed (x ∷ xs) h =
    rw (h.0, clean_string_list_of_AreTrimmed xs h.2) (ground (arith, str_iff x ""))

-- What the code downstream may rely on.
pub record IsNormal (s : WarpSettings) : Type 0 where
  pub mode : (s.mode ≡ "manual") ⊎ (s.mode ≡ "auto")
  pub fail_policy : (s.fail_policy ≡ "block") ⊎ (s.fail_policy ≡ "direct")
  pub mtu : pos 0 <ℤ s.mtu
  pub domain_strategy : valid_warp_domain_strategy s.domain_strategy ≡ true
  pub private_key : trim_space s.private_key ≡ s.private_key
  pub peer_public_key : trim_space s.peer_public_key ≡ s.peer_public_key
  pub endpoint : (trim_space s.endpoint ≡ s.endpoint) × (s.endpoint ≢ "")
  pub addresses : AreTrimmed s.addresses × (s.addresses ≢ [])

pub strategy_or_default :
    (b : Bool) (s : String)
    → valid_warp_domain_strategy s ≡ b
    → valid_warp_domain_strategy (if b then s else "ForceIPv4v6") ≡ true
unfolding valid_warp_domain_strategy to_lower trim_space
strategy_or_default true s e = e
strategy_or_default false s e = refl

pub endpoint_trimmed : trim_space warp_default_endpoint ≡ warp_default_endpoint
unfolding trim_space
endpoint_trimmed = refl

pub endpoint_or_default :
    (t : String)
    → trim_space t ≡ t
    → let e = or_text t warp_default_endpoint in (trim_space e ≡ e) × (e ≢ "")
endpoint_or_default t h = elim (Bool-cases (t == "")) [
  | inl e ↦ rw e (endpoint_trimmed, λ p. cc)
  | inr e ↦ rw e (h, ground (arith, str_iff t ""))
]

defaults_trimmed : AreTrimmed warp_default_addresses
unfolding trim_space
defaults_trimmed = (refl, (λ p. cc), (refl, (λ p. cc), tt))

pub addresses_or_default :
    (xs : List String)
    → AreTrimmed xs
    → AreTrimmed (or_list xs warp_default_addresses) × (or_list xs warp_default_addresses ≢ [])
addresses_or_default [] h = (defaults_trimmed, λ p. cc)
addresses_or_default (x ∷ xs) h = (h, λ p. cc)

pub normalize_warp_settings-IsNormal : (s : WarpSettings) → IsNormal (normalize_warp_settings s)
unfolding normalize_warp_settings
normalize_warp_settings-IsNormal s = record {
  mode = ground arith;
  fail_policy = ground arith;
  mtu = ground arith;
  domain_strategy =
      strategy_or_default (valid_warp_domain_strategy s.domain_strategy) s.domain_strategy refl;
  private_key = trim_space_twice s.private_key;
  peer_public_key = trim_space_twice s.peer_public_key;
  endpoint = endpoint_or_default (trim_space s.endpoint) (trim_space_twice s.endpoint);
  addresses =
      addresses_or_default (clean_string_list s.addresses)
        (clean_string_list-AreTrimmed s.addresses);
}

word_same :
    (one other v : String)
    → to_lower (trim_space one) ≡ one
    → (to_lower (trim_space other) == one) ≡ false
    → (v ≡ one) ⊎ (v ≡ other)
    → word v one other ≡ v
word_same one other v p q (inl e) = rw (e, p) (ground (arith, str_iff one one))
word_same one other v p q (inr e) = rw (e, q) refl

or_list_same : (xs ys : List String) → xs ≢ [] → or_list xs ys ≡ xs
or_list_same [] ys h = ground arith
or_list_same (x ∷ xs) ys h = refl

mode_same : (v : String) → (v ≡ "manual") ⊎ (v ≡ "auto") → word v "manual" "auto" ≡ v
unfolding to_lower trim_space
mode_same v h = word_same "manual" "auto" v refl refl h

policy_same : (v : String) → (v ≡ "block") ⊎ (v ≡ "direct") → word v "block" "direct" ≡ v
unfolding to_lower trim_space
policy_same v h = word_same "block" "direct" v refl refl h

or_text_same : (t u : String) → t ≢ "" → or_text t u ≡ t
or_text_same t u h = ground (arith, str_iff t "")

mtu_same : (m : ℤ) → pos 0 <ℤ m → (if leb_ℤ m (pos 0) then warp_default_mtu else m) ≡ m
mtu_same m h = ground arith

normalize_warp_settings_of_IsNormal :
    (s : WarpSettings) → IsNormal s → normalize_warp_settings s ≡ s
unfolding normalize_warp_settings
normalize_warp_settings_of_IsNormal s h =
    rw
      (
        mode_same s.mode h.mode,
        policy_same s.fail_policy h.fail_policy,
        mtu_same s.mtu h.mtu,
        h.domain_strategy,
        h.private_key,
        h.peer_public_key,
        h.endpoint.0,
        or_text_same s.endpoint warp_default_endpoint h.endpoint.1,
        clean_string_list_of_AreTrimmed s.addresses h.addresses.0,
        or_list_same s.addresses warp_default_addresses h.addresses.1,
      )
      refl

-- Normalizing changes nothing exactly in settings that are normal (the mode, the fail policy and the
-- domain strategy are known words, the MTU is positive, the keys, the endpoint and the addresses are
-- trimmed, and there are an endpoint and an address), and its result is left alone by a second pass.
pub normalize_warp_settings-exact :
    (s : WarpSettings)
    → ((normalize_warp_settings s ≡ s) ↔ IsNormal s)
      × (normalize_warp_settings (normalize_warp_settings s) ≡ normalize_warp_settings s)
normalize_warp_settings-exact s = (
  (
    (λ e. subst IsNormal e (normalize_warp_settings-IsNormal s)),
    normalize_warp_settings_of_IsNormal s,
  ),
  normalize_warp_settings_of_IsNormal (normalize_warp_settings s)
      (normalize_warp_settings-IsNormal s),
)
