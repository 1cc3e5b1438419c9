-- ===== src/Panel/Node.antt =====
-- api/zicboard/node.go: what a node makes of its security settings, and the texts that stand for
-- truth values.
pub mod Security
use zicnode.Prelude.{
  ℕ, Bool, true, false, ◌||◌, String, Option, none, some, List, [], ◌∷◌, ℤ, pos, mul64, to_lower,
  trim_space, string_key, int_key, ◌==◌, if◌then◌else◌,
}
use zicnode.Panel.Config.{TlsSettings, CommonNode}

-- The constants None, Tls and Reality.
abbrev pub security_none : ℤ
security_none = pos 0

abbrev pub security_tls : ℤ
security_tls = pos 1

abbrev pub security_reality : ℤ
security_reality = pos 2

abbrev list_or_one : List String → String → List String
list_or_one (x ∷ xs) s = x ∷ xs
list_or_one [] s = if s == "" then [] else s ∷ []

unfoldable pub effective_server_names : TlsSettings → List String
effective_server_names t = list_or_one t.server_names t.server_name

unfoldable pub effective_short_ids : TlsSettings → List String
effective_short_ids t = list_or_one t.short_ids t.short_id

unfoldable pub primary_server_name : TlsSettings → String
unfolding effective_server_names
primary_server_name t = elim (effective_server_names t) [ [] ↦ "" | x ∷ xs ↦ x ]

unfoldable pub cert_target : CommonNode → String
unfolding primary_server_name
cert_target c =
    let target = trim_space (primary_server_name c.tls_settings) in
    if target == "" then trim_space c.host else target

unfoldable pub uses_normal_tls : String → Bool
uses_normal_tls protocol =
    let p = to_lower (trim_space protocol) in
    p == "trojan" || p == "hysteria" || p == "hysteria2" || p == "tuic" || p == "anytls"

unfoldable pub allows_reality : String → Bool
allows_reality protocol = let p = to_lower (trim_space protocol) in p == "vless" || p == "anytls"

unfoldable pub effective_security : CommonNode → ℤ
unfolding uses_normal_tls allows_reality
effective_security c =
    let protocol = to_lower (trim_space c.protocol) in
    if protocol == "shadowsocks"
    then security_none
    else if c.tls == security_reality
    then (if allows_reality protocol then security_reality else security_tls)
    else if uses_normal_tls protocol
    then security_tls
    else c.tls

unfoldable pub parse_bool_string : String → Bool
parse_bool_string value =
    let v = to_lower (trim_space value) in
    v == "1" || v == "true" || v == "yes" || v == "y" || v == "on"
