-- ===== src/Core/Inbound/Served.antt =====
-- core/inbound.go: what an inbound that is built offers to a client.
use zicnode.Prelude.{
  Bool, true, false, inr, not, ◌&&◌, ◌||◌, String, Option, none, some, ◌≡◌, refl, subst, sym, ap,
  ◌∙◌, arith, string_key, int_key, ◌==◌, if◌then◌else◌,
}
use zicnode.Panel.Config.{NodeInfo, CommonNode, CertInfo}
use zicnode.Panel.Node.{security_tls, security_reality}
use zicnode.Core.Inbound.{empty_stream, Stream, TlsServer, Inbound, Formats}
use zicnode.Core.Inbound.Assemble.{
  build_protocol, with_proxy_protocol, as_uint32, with_server, tls_server, reality_server,
  with_security, stream_or, over_tls, build_inbound,
}
use zicnode.Core.Inbound.Proxy.{Started, with_proxy_protocol-Started}
use zicnode.Core.Inbound.Start.{
  Always, and_then-Always, either-Always, security_of, tls_of, reality_of, network_of,
  promised_network, IsPlain, build_protocol-Started,
}

-- The certificate that a node serves.
abbrev pub served_cert : NodeInfo → CommonNode → Option CertInfo
served_cert info v =
    if info.security == security_tls
    then elim v.cert_info [
      | none ↦ none
      | some c ↦ if c.cert_mode == "none" || c.cert_mode == "" then none else some c
    ]
    else none

abbrev pub is_reality : NodeInfo → Bool
is_reality info = not (info.security == security_tls) && info.security == security_reality

abbrev pub promised_security : Option CertInfo → Bool → String
promised_security (some c) reality = "tls"
promised_security none true = "reality"
promised_security none false = ""

abbrev pub tls_for : String → Option CertInfo → Option TlsServer
tls_for node_type none = none
tls_for node_type (some c) = some (tls_server node_type c)

pub record IsServed {T : Type 0} (info : NodeInfo) (v : CommonNode) (tag : String) (i : Inbound T)
    : Type 0 where
  pub security : security_of i.stream ≡ promised_security (served_cert info v) (is_reality info)
  pub tls : tls_of i.stream ≡ tls_for info.node_type (served_cert info v)
  pub reality :
      reality_of i.stream ≡ (if is_reality info then some (reality_server v.tls_settings) else none)
  pub network :
      (if info.node_type == "shadowsocks" then none else network_of i.stream)
      ≡ (if info.node_type == "shadowsocks" then none else promised_network info.node_type v)
  pub tagged : i.tag ≡ tag
  pub ported : i.port ≡ as_uint32 v.server_port
  pub listens : i.listen_on ≡ v.listen_ip

but_shadowsocks :
    {A : Type 0}
    → (b : Bool) (o o' : Option A) → (b ≡ false → o ≡ o')
    → (if b then none else o) ≡ (if b then none else o')
but_shadowsocks true o o' h = refl
but_shadowsocks false o o' h = h refl

module _ {T : Type 0} (f : Formats T) (v : CommonNode) where
  kept : (s : Option (Stream T)) → (stream_or empty_stream s).network ≡ network_of s
  kept none = refl
  kept (some s) = refl

  kept_tls : (s : Option (Stream T)) → IsPlain s → (stream_or empty_stream s).tls ≡ none
  kept_tls none h = refl
  kept_tls (some s) h = h.1

  kept_reality : (s : Option (Stream T)) → IsPlain s → (stream_or empty_stream s).reality ≡ none
  kept_reality none h = refl
  kept_reality (some s) h = h.2

  abbrev Served : NodeInfo → String → Inbound T → Type 0
  Served info tag i = IsServed info v tag (record i { tag = tag })

  plain-Served :
      (info : NodeInfo) (tag : String) (i : Inbound T)
      → Started f v info.node_type i
      → i.port ≡ as_uint32 v.server_port
      → i.listen_on ≡ v.listen_ip
      → served_cert info v ≡ none
      → is_reality info ≡ false
      → Served info tag i
  plain-Served info tag i h p q c r = record {
    security =
        h.0.0
        ∙ sym
            (ap (promised_security (served_cert info v)) r ∙ ap (λ o. promised_security o false) c);
    tls = h.0.1 ∙ sym (ap (tls_for info.node_type) c);
    reality = h.0.2 ∙ sym (ap (λ b. if b then some (reality_server v.tls_settings) else none) r);
    network = but_shadowsocks (info.node_type == "shadowsocks") _ _ h.2;
    tagged = refl;
    ported = p;
    listens = q;
  }

  over_tls-Served :
      (info : NodeInfo) (tag : String) (i : Inbound T) (o : Option CertInfo)
      → Started f v info.node_type i
      → i.port ≡ as_uint32 v.server_port
      → i.listen_on ≡ v.listen_ip
      → (info.security == security_tls) ≡ true
      → v.cert_info ≡ o
      → Always (Served info tag) (over_tls info.node_type o i)
  over_tls-Served info tag i none h p q b e = tt
  over_tls-Served info tag i (some c) h p q b e =
      by_mode (c.cert_mode == "none" || c.cert_mode == "") refl
    where
      by_mode :
          (m : Bool)
          → (c.cert_mode == "none" || c.cert_mode == "") ≡ m
          → Served info tag (
              if m then i else record i {
                stream = some (record (stream_or empty_stream i.stream) {
                  security = "tls";
                  tls = some (tls_server info.node_type c);
                });
              })
      by_mode true m = plain-Served info tag i h p q (ground (arith, b, e, m)) (ground (arith, b))
      by_mode false m = record {
        security = ground (arith, b, e, m);
        tls = ground (arith, b, e, m);
        reality = kept_reality i.stream h.0 ∙ ground (arith, b);
        network =
            but_shadowsocks (info.node_type == "shadowsocks") _ _ (λ n. kept i.stream ∙ h.2 n);
        tagged = refl;
        ported = p;
        listens = q;
      }

  with_security-IsServed :
      (info : NodeInfo) (tag : String) (i : Inbound T)
      → Started f v info.node_type i
      → i.port ≡ as_uint32 v.server_port
      → i.listen_on ≡ v.listen_ip
      → Always (Served info tag) (with_security info v i)
  unfolding with_security
  with_security-IsServed info tag i h p q =
      either-Always (Served info tag) (info.security == security_tls) _ _
        (λ b. over_tls-Served info tag i v.cert_info h p q b refl)
        (λ a.
          either-Always (Served info tag) (info.security == security_reality) _ _
            (λ b. record {
              security = ground (arith, a, b);
              tls = kept_tls i.stream h.0 ∙ ground (arith, a);
              reality = ground (arith, a, b);
              network =
                  but_shadowsocks (info.node_type == "shadowsocks") _ _
                    (λ n. kept i.stream ∙ h.2 n);
              tagged = refl;
              ported = p;
              listens = q;
            })
            (λ b. plain-Served info tag i h p q (ground (arith, a)) (ground (arith, a, b))))

all_built-IsServed :
    {T : Type 0}
    → (f : Formats T) (random : Option String) (info : NodeInfo) (v : CommonNode) (tag : String)
    → Always (IsServed info v tag) (build_inbound f random info v tag)
unfolding build_inbound with_server
all_built-IsServed {T = T} f random info v tag =
    and_then-Always (Started f v info.node_type) (IsServed info v tag)
      (build_protocol f random info.node_type v) _
      (build_protocol-Started f v random info.node_type)
      (λ i h.
        and_then-Always (Started f v info.node_type) (IsServed info v tag)
          (with_proxy_protocol f v i) _ (with_proxy_protocol-Started f v info.node_type i h)
          (λ i h.
            and_then-Always (λ (i : Inbound T). IsServed info v tag (record i { tag = tag }))
              (IsServed info v tag) (with_security info v (with_server v i)) _
              (with_security-IsServed f v info tag (with_server v i) h refl refl) (λ i h. h)))

-- The security of an inbound that is built is the one of the node: TLS with the node's certificate, but
-- none where the certificate's mode is "none" or empty, or Reality with its settings. But for
-- Shadowsocks its network is the one of the protocol, and for VLESS and VMess it is the node's network
-- only where there are network settings, else none. It listens on the node's address and port, under
-- the tag.
pub build_inbound-IsServed :
    {T : Type 0}
    → (f : Formats T) (random : Option String) (info : NodeInfo) (v : CommonNode) (tag : String)
      (i : Inbound T)
    → build_inbound f random info v tag ≡ inr i
    → IsServed info v tag i
build_inbound-IsServed f random info v tag i h =
    subst (Always (IsServed info v tag)) h (all_built-IsServed f random info v tag)
