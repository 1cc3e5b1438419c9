-- ===== src/Panel/Tests.antt =====
-- api/zicboard/node.go on a concrete node.
use zicnode.Prelude.{◌≡◌, refl, pos, to_lower, trim_space, string_key, int_key}
use zicnode.Panel.Config.{CommonNode, zero_node, zero_tls}
use zicnode.Panel.Node.{effective_security, cert_target, security_tls}

abbrev trojan : CommonNode
trojan = record zero_node {
  protocol = "Trojan";
  host = "h";
  tls = pos 2;
  tls_settings = record zero_tls { server_name = " example.org " };
}

trojan_security : effective_security trojan ≡ security_tls
unfolding effective_security to_lower trim_space
trojan_security = refl

trojan_target : cert_target trojan ≡ "example.org"
unfolding cert_target trim_space
trojan_target = refl
