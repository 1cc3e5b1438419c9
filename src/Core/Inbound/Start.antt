-- ===== src/Core/Inbound/Start.antt =====
-- core/inbound.go: what the inbound of a protocol starts from, before its security is set.
use zicnode.Prelude.{
  Bool, true, false, ◌||◌, String, Option, none, some, ◌⊎◌, inl, inr, ◌≡◌, refl, ap, ◌∙◌, is_some,
  str_iff, arith, string_key, int_key, ◌==◌, if◌then◌else◌,
}
use zicnode.Panel.Config.{CommonNode}
use zicnode.Core.Inbound.{
  vless_decryption, vmess_settings, trojan_settings, any_tls_settings, Settings, inbound_of,
  InboundError, and_then, Stream, stream_of, under, HttpHeader, ShadowsocksHttp,
  effective_transport_network, TlsServer, RealityServer, Inbound, Formats, transport_field,
  transport_stream, decoded_field, unmarshal_network_settings, raw_of,
}
use zicnode.Core.Inbound.Build.{
  decryption_of, stream_if_set, stream_in_any_case, build_vless, build_vmess, build_trojan,
  build_shadowsocks, with_random, shadowsocks_of, disguised_stream, http_header, build_hysteria2,
  build_tuic, build_any_tls,
}
use zicnode.Core.Inbound.Assemble.{build_protocol}

-- Every result has a property.
abbrev pub Always : {A : Type 0} → (A → Type 0) → InboundError ⊎ A → Type 0
Always P (inl e) = Unit
Always P (inr a) = P a

pub and_then-Always :
    {A B : Type 0}
    → (P : A → Type 0) (Q : B → Type 0) (m : InboundError ⊎ A) (k : A → InboundError ⊎ B)
    → Always P m
    → ((a : A) → P a → Always Q (k a))
    → Always Q (and_then m k)
and_then-Always P Q (inl e) k h g = tt
and_then-Always P Q (inr a) k h g = g a h

-- The same after any step.
pub any_then-Always :
    {A B : Type 0}
    → (Q : B → Type 0) (m : InboundError ⊎ A) (k : A → InboundError ⊎ B)
    → ((a : A) → Always Q (k a))
    → Always Q (and_then m k)
any_then-Always Q (inl e) k g = tt
any_then-Always Q (inr a) k g = g a

pub either-Always :
    {A : Type 0}
    → (P : A → Type 0) (b : Bool) (m n : InboundError ⊎ A) → (b ≡ true → Always P m)
    → (b ≡ false → Always P n)
    → Always P (if b then m else n)
either-Always P true m n h k = h refl
either-Always P false m n h k = k refl

abbrev pub security_of : {T : Type 0} → Option (Stream T) → String
security_of none = ""
security_of (some s) = s.security

abbrev pub tls_of : {T : Type 0} → Option (Stream T) → Option TlsServer
tls_of none = none
tls_of (some s) = s.tls

abbrev pub reality_of : {T : Type 0} → Option (Stream T) → Option RealityServer
reality_of none = none
reality_of (some s) = s.reality

abbrev pub IsPlain : {T : Type 0} → Option (Stream T) → Type 0
IsPlain s = (security_of s ≡ "") × (tls_of s ≡ none) × (reality_of s ≡ none)

abbrev pub network_of : {T : Type 0} → Option (Stream T) → Option String
network_of none = none
network_of (some s) = s.network

-- The network that the stream of a protocol has, but for Shadowsocks.
abbrev pub network_if_set : CommonNode → Option String
network_if_set v =
    if raw_of v.network_settings == "" then none else some (effective_transport_network v.network)

abbrev pub promised_network : String → CommonNode → Option String
promised_network node_type v =
    if node_type == "vless" || node_type == "vmess"
    then network_if_set v
    else if node_type == "hysteria2"
    then some "hysteria"
    else if node_type == "tuic"
    then some "tuic"
    else some (effective_transport_network v.network)

-- Without security, and where there is a stream it has a network.
abbrev pub Starts : {T : Type 0} → Option String → Option (Stream T) → Type 0
Starts n o = IsPlain o × (is_some o ≡ is_some (network_of o)) × (network_of o ≡ n)

abbrev pub IsStart : {T : Type 0} → String → CommonNode → Option (Stream T) → Type 0
IsStart node_type v o =
    IsPlain o
    × (is_some o ≡ is_some (network_of o))
    × ((node_type == "shadowsocks") ≡ false → network_of o ≡ promised_network node_type v)

module _ {T : Type 0} (f : Formats T) (v : CommonNode) where
  abbrev StartsAs : Option String → Option (Stream T) → Type 0
  StartsAs n o = Starts n o

  abbrev Started : String → Inbound T → Type 0
  Started node_type i = IsStart node_type v i.stream

  decoded_field-Starts :
      (o : Option String) (network raw : String)
      → Always
          (StartsAs (some network))
          (and_then (decoded_field f o network raw) (λ s. inr (some s)))
  decoded_field-Starts none network raw = tt
  decoded_field-Starts (some field) network raw =
      decoded_settings network field (unmarshal_network_settings (f.transport field) raw)
    where
      decoded_settings :
          (network field : String) (m : InboundError ⊎ Option T)
          → Always (StartsAs (some network)) (
              and_then
                (and_then m (λ t. inr (record (stream_of network) { transport = under field t })))
                (λ s. inr (some s)))
      decoded_settings network field (inl e) = tt
      decoded_settings network field (inr t) = ((refl, refl, refl), refl, refl)

  stream_if_set-Starts : Always (StartsAs (network_if_set v)) (stream_if_set f v)
  unfolding stream_if_set transport_stream
  stream_if_set-Starts =
      of_set (raw_of v.network_settings == "") (effective_transport_network v.network)
    where
      of_set :
          (b : Bool) (network : String)
          → Always (StartsAs (if b then none else some network)) (
              if b
              then inr none
              else and_then
                  (decoded_field f (transport_field network) network (raw_of v.network_settings))
                  (λ s. inr (some s)))
      of_set true network = ((refl, refl, refl), refl, refl)
      of_set false network = decoded_field-Starts (transport_field network) network _

  stream_in_any_case-Starts :
      Always (StartsAs (some (effective_transport_network v.network))) (stream_in_any_case f v)
  unfolding stream_in_any_case transport_stream
  stream_in_any_case-Starts =
      either-Always (StartsAs (some (effective_transport_network v.network)))
        (raw_of v.network_settings == "") _ _ (λ p. ((refl, refl, refl), refl, refl))
        (λ p.
          decoded_field-Starts (transport_field (effective_transport_network v.network))
            (effective_transport_network v.network) (raw_of v.network_settings))

  disguised-Starts :
      (h : ShadowsocksHttp) (o : Option HttpHeader)
      → IsPlain (disguised_stream {T = T} h o)
        × (is_some (disguised_stream {T = T} h o)
            ≡ is_some (network_of (disguised_stream {T = T} h o)))
  disguised-Starts h o = ground arith

  started :
      (node_type protocol : String) (g : Settings) (n : Option String)
      (m : InboundError ⊎ Option (Stream T))
      → Always (StartsAs n) m
      → n ≡ promised_network node_type v
      → Always (Started node_type) (and_then m (λ s. inr (inbound_of protocol g s)))
  started node_type protocol g n (inl e) h p = tt
  started node_type protocol g n (inr o) h p = (h.0, h.1, λ q. h.2 ∙ p)

  with_random-Started :
      (node_type : String) (random : Option String)
      → (node_type == "shadowsocks") ≡ true
      → Always (Started node_type) (with_random f v random)
  unfolding http_header
  with_random-Started node_type none p = tt
  with_random-Started node_type (some r) p =
      any_then-Always (Started node_type)
        (unmarshal_network_settings f.shadowsocks (raw_of v.network_settings)) _ (λ o. of_option o)
    where
      of_option : (o : Option ShadowsocksHttp) → Started node_type (shadowsocks_of v r o)
      of_option none = ((refl, refl, refl), refl, λ q. ground (arith, p, q))
      of_option (some h) = (
        (disguised-Starts h (http_header h)).0,
        (disguised-Starts h (http_header h)).1,
        λ q. ground (arith, p, q),
      )

  pub build_protocol-Started :
      (random : Option String) (node_type : String)
      → Always (Started node_type) (build_protocol f random node_type v)
  unfolding build_protocol build_vless build_vmess build_trojan build_shadowsocks build_hysteria2
      build_tuic build_any_tls
  build_protocol-Started random t =
      either-Always (Started t) (t == "vless") _ _
        (λ p. any_then-Always (Started t) (decryption_of v) _ (λ d.
          started t "vless" (vless_decryption d) _ _ stream_if_set-Starts (ground (arith, p))))
        (λ a.
          either-Always (Started t) (t == "vmess") _ _
            (λ p. started t "vmess" vmess_settings _ _ stream_if_set-Starts (ground (arith, a, p)))
            (λ b.
              either-Always (Started t) (t == "trojan") _ _
                (λ p. started t "trojan" trojan_settings _ _ stream_in_any_case-Starts (
                  ground (
                    arith,
                    a,
                    b,
                    ap (λ t. t == "hysteria2") ((str_iff t "trojan").0 p),
                    ap (λ t. t == "tuic") ((str_iff t "trojan").0 p),
                  )))
                (λ c.
                  either-Always (Started t) (t == "shadowsocks") _ _
                    (λ p. with_random-Started t random p)
                    (λ d.
                      either-Always (Started t) (t == "hysteria2") _ _
                        (λ p. ((refl, refl, refl), refl, λ q. ground (arith, a, b, p)))
                        (λ e.
                          either-Always (Started t) (t == "tuic") _ _
                            (λ p. ((refl, refl, refl), refl, λ q. ground (arith, a, b, e, p)))
                            (λ g.
                              either-Always (Started t) (t == "anytls") _ _
                                (λ p.
                                  started t "anytls" (any_tls_settings v.padding_scheme) _ _
                                    stream_in_any_case-Starts (ground (arith, a, b, e, g, p)))
                                (λ p. tt)))))))
