-- ===== src/Panel/Client/Accepted.antt =====
-- api/zicboard/node.go, `GetNodeInfo`: which bodies give a node.
use zicnode.Prelude.{
  Bool, true, false, ◌||◌, String, Option, none, some, ℤ, pos, ◌≡◌, ◌↔◌, refl, sym, ap, ◌∙◌, arith,
  inl, inr, Option-cases, if◌then◌else◌, ◌==◌, str_iff, string_key, int_key, trim_space, to_lower,
  ◌>>=◌,
}
use zicnode.Panel.Config.{BaseConfig, CommonNode, NodeInfo}
use zicnode.Panel.Node.{effective_security, security_none}
use zicnode.Panel.Decode.{Decoder}
use zicnode.Panel.Decode.Node.{unmarshal_node}
use zicnode.Panel.Client.{Client, response}
use zicnode.Panel.Client.NodeInfo.{
  NodeError, Fetched, changed, unchanged, is_supported, node_info_of, check_base, read_common,
  read_body, get_node_info, base_error, protocol_security, node_or_error, with_base,
}

-- What makes a node of a body.
pub record IsAccepted (d : Decoder) (c : Client) (body : String) (n : NodeInfo) : Type 0 where
  pub common : CommonNode
  pub base : BaseConfig
  pub decoded : (d.parse body >>= unmarshal_node d) ≡ some common
  pub has_base : common.base_config ≡ some base
  pub panel : base.panel ≡ "zicboard"
  pub node_type : base.node_type ≡ "zicnode"
  pub protocol : (is_supported common.protocol || common.protocol == "shadowsocks") ≡ true
  pub node : n ≡ node_info_of d c common base (effective_security common)

shadowsocks_security :
    (cm : CommonNode) → cm.protocol ≡ "shadowsocks" → effective_security cm ≡ security_none
unfolding effective_security trim_space to_lower
shadowsocks_security cm h = rw h refl

base_error-none :
    (base : BaseConfig)
    → (base_error base ≡ none) ↔ (base.panel ≡ "zicboard") × (base.node_type ≡ "zicnode")
base_error-none base =
    ground (arith, str_iff base.panel "zicboard", str_iff base.node_type "zicnode")

abbrev Served : CommonNode → Type 0
Served cm = (is_supported cm.protocol || cm.protocol == "shadowsocks") ≡ true

served_security :
    (cm : CommonNode) (a b : Bool) (s : ℤ)
    → (b ≡ true → effective_security cm ≡ security_none)
    → ((if a then some (effective_security cm) else if b then some security_none else none)
        ≡ some s)
      ↔ ((a || b) ≡ true) × (s ≡ effective_security cm)
served_security cm true b s h = ground arith
served_security cm false true s h = ground (arith, h refl)
served_security cm false false s h = ground arith

protocol_security-some :
    (cm : CommonNode) (s : ℤ)
    → (protocol_security cm ≡ some s) ↔ Served cm × (s ≡ effective_security cm)
unfolding protocol_security
protocol_security-some cm s =
    served_security cm (is_supported cm.protocol) (cm.protocol == "shadowsocks") s
      (λ e. shadowsocks_security cm ((str_iff cm.protocol "shadowsocks").0 e))

node_or_error-changed :
    (d : Decoder) (c : Client) (cm : CommonNode) (base : BaseConfig) (e : Option NodeError)
    (o : Option ℤ) (n : NodeInfo)
    → node_or_error d c cm base e o ≡ changed n
    → (e ≡ none) × ((s : ℤ) × (o ≡ some s) × (n ≡ node_info_of d c cm base s))
node_or_error-changed d c cm base (some e) o n h = ground (arith, h)
node_or_error-changed d c cm base none none n h = ground (arith, h)
node_or_error-changed d c cm base none (some s) n h = (refl, (s, refl, ground (arith, h)))

check_base-IsAccepted :
    (d : Decoder) (c : Client) (body : String) (cm : CommonNode) (base : BaseConfig) (n : NodeInfo)
    → (d.parse body >>= unmarshal_node d) ≡ some cm
    → cm.base_config ≡ some base
    → node_or_error d c cm base (base_error base) (protocol_security cm) ≡ changed n
    → IsAccepted d c body n
check_base-IsAccepted d c body cm base n p q h =
    let k = node_or_error-changed d c cm base (base_error base) (protocol_security cm) n h in
    let b = (base_error-none base).0 k.0 in
    let s = (protocol_security-some cm k.1.0).0 k.1.1 in
    record {
      common = cm;
      base = base;
      decoded = p;
      has_base = q;
      panel = b.0;
      node_type = b.1;
      protocol = s.0;
      node = k.1.2 ∙ ap (node_info_of d c cm base) s.1;
    }

read_common-IsAccepted :
    (d : Decoder) (c : Client) (body : String) (o : Option CommonNode) (n : NodeInfo)
    → (d.parse body >>= unmarshal_node d) ≡ o
    → read_common d c o ≡ changed n
    → IsAccepted d c body n
unfolding check_base
read_common-IsAccepted d c body none n p h = ground (arith, h)
read_common-IsAccepted d c body (some cm) n p h = elim (Option-cases cm.base_config) [
  | inl e ↦ (let k = sym (ap (with_base d c cm) e) ∙ h in ground (arith, k))
  | inr (base, e) ↦ check_base-IsAccepted d c body cm base n p e (sym (ap (with_base d c cm) e) ∙ h)
]

IsAccepted-read_body :
    (d : Decoder) (c : Client) (body : String) (n : NodeInfo)
    → IsAccepted d c body n
    → read_body d c body ≡ changed n
unfolding read_body check_base
IsAccepted-read_body d c body n h =
    ap (read_common d c) h.decoded
    ∙ ap (with_base d c h.common) h.has_base
    ∙ ap (λ e. node_or_error d c h.common h.base e (protocol_security h.common))
        ((base_error-none h.base).1 (h.panel, h.node_type))
    ∙ ap (node_or_error d c h.common h.base none)
        ((protocol_security-some h.common (effective_security h.common)).1 (h.protocol, refl))
    ∙ ap changed (sym h.node)

abbrev read_unless : Bool → Bool → Client → Fetched × Client → Fetched × Client
read_unless a b c r = if a then (unchanged, c) else if b then (unchanged, c) else r

read_unless-changed :
    (a b : Bool) (c : Client) (r : Fetched × Client) (n : NodeInfo)
    → ((read_unless a b c r).0 ≡ changed n) ↔ (a ≡ false) × (b ≡ false) × (r.0 ≡ changed n)
read_unless-changed a b c r n = ground arith

-- `GetNodeInfo` gives a node exactly if the answer is not 304 and its body is another than the last
-- one, decodes to a node with a base configuration for this panel and this type of node, and has a
-- supported protocol; the node is then that of the body, with the effective security, and an answer
-- that is not accepted is an error or no change.
pub get_node_info-accepts :
    (d : Decoder) (hex_sha256 : String → String) (status : ℤ) (etag body : String) (c : Client)
    (n : NodeInfo)
    → ((get_node_info d hex_sha256 (response status etag body) c).0 ≡ changed n)
      ↔ ((status == pos 304) ≡ false)
        × ((c.response_body_hash == hex_sha256 body) ≡ false)
        × IsAccepted d c body n
unfolding get_node_info
get_node_info-accepts d hex_sha256 status etag body c n =
    let c' = record c { response_body_hash = hex_sha256 body; node_etag = etag } in
    let k =
      read_unless-changed (status == pos 304) (c.response_body_hash == hex_sha256 body) c
        (read_body d c body, c') n in
    (
      (λ h. ((k.0 h).0, (k.0 h).1, read_common-IsAccepted d c body _ n refl (k.0 h).2)),
      λ h. k.1 (h.0, h.1, IsAccepted-read_body d c body n h.2),
    )
