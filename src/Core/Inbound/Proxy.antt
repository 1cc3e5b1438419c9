-- ===== src/Core/Inbound/Proxy.antt =====
-- core/inbound.go: the step for the PROXY protocol.
use zicnode.Prelude.{
  Bool, true, false, ◌||◌, String, Option, none, some, ◌≡◌, refl, ap, str_iff, trim_space,
  has_prefix, arith, string_key, int_key, ◌==◌,
}
use zicnode.Panel.Config.{CommonNode}
use zicnode.Core.Inbound.{Stream, Inbound, Formats, decoded_or, unmarshal_network_settings, raw_of}
use zicnode.Core.Inbound.Assemble.{with_proxy_protocol, accepting_proxy}
use zicnode.Core.Inbound.Start.{Always, and_then-Always, either-Always, IsStart}

abbrev NoSettings : {A : Type 0} → String → Option A → Type 0
NoSettings r o = (r == "") ≡ true → o ≡ none

decoded_or-NoSettings :
    {A : Type 0}
    → (r : String) (o : Option A) → (r == "") ≡ false
    → Always (NoSettings r) (decoded_or o)
decoded_or-NoSettings r none h = tt
decoded_or-NoSettings r (some a) h = λ p. ground (arith, h, p)

trimmed_empty :
    (r : String) → (r == "") ≡ true → (trim_space r == "" || trim_space r == "null") ≡ true
unfolding trim_space
trimmed_empty r p = ap (λ r. trim_space r == "" || trim_space r == "null") ((str_iff r "").0 p)

-- Empty settings decode to nothing.
unmarshal_network_settings-empty :
    {A : Type 0}
    → (decode : String → Option A) (r : String)
    → Always (NoSettings r) (unmarshal_network_settings decode r)
unfolding unmarshal_network_settings trim_space has_prefix
unmarshal_network_settings-empty decode r =
    either-Always (NoSettings r) (trim_space r == "" || trim_space r == "null") _ _ (λ q p. refl)
      (λ q.
        let h = given r q in
        either-Always (NoSettings r) (trim_space r == "[]") _ _
          (λ p. decoded_or-NoSettings r (decode "{}") h)
          (λ p.
            either-Always (NoSettings r) (has_prefix (trim_space r) "[") _ _ (λ p. tt)
              (λ p. decoded_or-NoSettings r (decode (trim_space r)) h)))
  where
    given :
        (r : String) → (trim_space r == "" || trim_space r == "null") ≡ false → (r == "") ≡ false
    given r q = ground (arith, q, trimmed_empty r)

module _ {T : Type 0} (f : Formats T) (v : CommonNode) where
  abbrev pub Started : String → Inbound T → Type 0
  Started node_type i = IsStart node_type v i.stream

  accepting_proxy-Started :
      (node_type : String) (o : Option Bool) (i : Inbound T) (s : Option (Stream T))
      → NoSettings (raw_of v.network_settings) o
      → IsStart node_type v s
      → Started node_type (accepting_proxy v o (record i { stream = s }))
  accepting_proxy-Started node_type none i s h k = k
  accepting_proxy-Started node_type (some false) i s h k = k
  accepting_proxy-Started node_type (some true) i none h k =
      ((refl, refl, refl), refl, λ q. ground (arith, h, k.2, q))
  accepting_proxy-Started node_type (some true) i (some s) h k = k

  pub with_proxy_protocol-Started :
      (node_type : String) (i : Inbound T)
      → Started node_type i
      → Always (Started node_type) (with_proxy_protocol f v i)
  unfolding with_proxy_protocol
  with_proxy_protocol-Started node_type i k =
      and_then-Always (NoSettings (raw_of v.network_settings)) (Started node_type)
        (unmarshal_network_settings f.proxy_protocol (raw_of v.network_settings)) _
        (unmarshal_network_settings-empty f.proxy_protocol (raw_of v.network_settings))
        (λ o h. accepting_proxy-Started node_type o i i.stream h k)
