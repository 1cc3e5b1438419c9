-- ===== src/Panel/Node/Security.antt =====
-- api/zicboard/node.go, `EffectiveSecurity`: which security a protocol gets.
use zicnode.Prelude.{
  true, false, String, ◌≡◌, ◌⊎◌, to_lower, trim_space, string_key, int_key, str_iff, int_beq_iff,
  arith,
}
use zicnode.Panel.Config.{CommonNode}
use zicnode.Panel.Node.{
  security_none, security_reality, uses_normal_tls, allows_reality, effective_security,
}

abbrev name_of : CommonNode → String
name_of c = to_lower (trim_space c.protocol)

-- What the security of a node is.
pub record IsSecured (c : CommonNode) : Type 0 where
  pub reality_only :
      effective_security c ≡ security_reality
      → (c.tls ≡ security_reality) × (allows_reality (to_lower (trim_space c.protocol)) ≡ true)
  pub plain_only :
      effective_security c ≡ security_none
      → (to_lower (trim_space c.protocol) ≡ "shadowsocks")
        ⊎ (c.tls ≡ security_none) × (uses_normal_tls (to_lower (trim_space c.protocol)) ≡ false)
  pub stable : effective_security (record c { tls = effective_security c }) ≡ effective_security c

-- REALITY is used only where the panel asks for it and the protocol allows it; a node is without
-- encryption only if it speaks Shadowsocks, or the panel asks for none and the protocol does not
-- need TLS; and the effective security of a node that has it already is the same.
pub effective_security-IsSecured : (c : CommonNode) → IsSecured c
unfolding effective_security
effective_security-IsSecured c = ground (
  arith,
  str_iff (name_of c) "shadowsocks",
  int_beq_iff c.tls security_reality,
  int_beq_iff (effective_security c) security_reality,
)
