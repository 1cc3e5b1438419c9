-- ===== src/Core/Inbound/Tests.antt =====
-- core/inbound.go on concrete nodes. Settings of a transport are their text.
use zicnode.Prelude.{
  true, false, String, Option, none, some, [], pos, ◌≡◌, ◌⊎◌, inl, inr, refl, to_lower, trim_space,
  has_prefix, ◌==◌, string_key,
}
use zicnode.Panel.Config.{NodeInfo, CommonNode, CertInfo, zero_node}
use zicnode.Core.Inbound.{InboundError, Inbound, Formats}
use zicnode.Core.Inbound.Build.{build_tuic}
use zicnode.Core.Inbound.Assemble.{build_inbound}
use zicnode.Core.Inbound.Start.{network_of}
use zicnode.Core.Inbound.Served.{IsServed, build_inbound-IsServed}

abbrev formats : Formats String
formats = record {
  transport = λ field raw. some raw;
  proxy_protocol = λ raw. some (raw == "{\"acceptProxyProtocol\":true}");
  shadowsocks = λ raw. none;
}

abbrev cert : CertInfo
cert = record {
  cert_mode = "file";
  cert_file = "/c";
  key_file = "/k";
  email = "";
  cert_domain = "";
  dns_env = [];
  provider = "";
  self_fallback = false;
  reject_unknown_sni = true;
}

abbrev common : CommonNode
common = record zero_node { network = "ws"; server_port = pos 443; cert_info = some cert }

abbrev info : NodeInfo
info = record {
  id = pos 1;
  node_type = "vless";
  security = pos 1;
  push_interval = pos 0;
  pull_interval = pos 0;
  tag = "n";
  common = some common;
}

abbrev network_or : InboundError ⊎ Inbound String → Option String
network_or (inl e) = none
network_or (inr i) = network_of i.stream

-- A node of the network ws, with and without settings.
without_settings : network_or (build_inbound formats none info common "n") ≡ none
unfolding build_inbound trim_space
without_settings = refl

with_settings :
    network_or
      (build_inbound formats none info (record common { network_settings = some "{}" }) "n")
    ≡ some "ws"
unfolding build_inbound trim_space to_lower has_prefix
with_settings = refl

abbrev given : Inbound String → InboundError ⊎ Inbound String → Inbound String
given j (inl e) = j
given j (inr i) = i

abbrev built : Inbound String
built = given (build_tuic common) (build_inbound formats none info common "n")

build_inbound-IsServed_example : IsServed info common "n" built
unfolding build_inbound trim_space
build_inbound-IsServed_example = build_inbound-IsServed formats none info common "n" built refl
