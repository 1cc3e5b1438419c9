-- ===== src/Core/Routing/Tests.antt =====
-- core/custom.go on concrete nodes: handlers and outbounds are their tags.
use zicnode.Prelude.{
  equal_fold, to_lower, arith, sym, ap, Bool, true, false, String, Option, none, some, [], ◌∷◌, pos,
  ◌≡◌, ◌⊎◌, inl, refl, IsIn, Json, object, string, truth, last, member, string_key, ◌==◌,
  if◌then◌else◌,
}
use zicnode.Panel.Config.{NodeInfo, Route, CommonNode, zero_node, zero_warp, zero_route}
use zicnode.Core.Warp.{warp_outbound_tag, warp_fail_policy}
use zicnode.Core.Warp.Sidecar.{System}
use zicnode.Core.Warp.Resolve.{Service}
use zicnode.Core.Routing.{Engine, catch_all, has_outbound_with_tag}
use zicnode.Core.Routing.Sanitize.{Parsed, parse_custom_route_outbound}
use zicnode.Core.Routing.Build.{collect}
use zicnode.Core.Routing.Closed.{collect-closed}
use zicnode.Core.Routing.Targets.{Exist, IsTotal, collect-Exist}
use zicnode.Core.Routing.Routed.{rule_for}
use zicnode.Core.Routing.Dangling.{NeverBuilds, collect-dangling}

abbrev insecure : Json
insecure = object (
    member "tag" (string "out") (
      member "streamSettings"
        (object (member "tlsSettings" (object (member "allowInsecure" (truth true) last)) last))
        last))

abbrev tag_of : Json → Option String
tag_of (object (member k (string s) ms)) = some s
tag_of _ = none

abbrev engine : Engine String String
engine = record {
  parse = λ s. if s == "json" then some insecure else none;
  outbound_of = tag_of;
  tag = λ d. d;
  build = λ d. some d;
  build_warp = λ o. some o.tag;
  handler_tag = λ h. h;
  default_outbound = some "Default";
  block_outbound = some "block";
  dns_outbound = some "dns_out";
}

abbrev broken : Engine String String
broken = record engine {
  build = λ d. if d == "out" then none else some d;
  build_warp = λ o. some "warp";
}

engine-IsTotal : IsTotal engine
engine-IsTotal = record {
  build = λ d. (d, refl, refl);
  build_warp = λ o h e. ground (arith, e);
  block = "block";
  has_block = refl;
  block_tag = refl;
  dns = "dns_out";
  has_dns = refl;
  dns_tag = refl;
}

abbrev sys : System
sys = record {
  warp_dir = "/tmp";
  hex_sha256 = λ s. s;
  join = λ dir name. name;
  makes_dir = λ path. true;
  writes = λ path. true;
  now = pos 0;
}

-- No identity can be registered.
abbrev service : Service
service = record { seed = none; public_bytes = λ bytes. none; reply = λ key. none }

abbrev common : CommonNode
common = record zero_node {
  warp_settings = record zero_warp { enable = true; fail_policy = "Block" };
  routes = record zero_route { action = "route"; action_value = some "json" } ∷ [];
}

abbrev info : NodeInfo
info = record {
  id = pos 1;
  node_type = "vless";
  security = pos 0;
  push_interval = pos 0;
  pull_interval = pos 0;
  tag = "n";
  common = some common;
}

fails_closed : warp_fail_policy (some info) ≡ "block"
unfolding warp_fail_policy equal_fold to_lower
fails_closed = refl

collect-closed_example :
    (target : String) × ((target ≡ "block") ⊎ (target ≡ warp_outbound_tag (some info)))
    × IsIn (catch_all "n" target) (collect engine sys service none (some info ∷ []) []).0.rules
collect-closed_example =
    collect-closed engine sys service none (some info ∷ []) [] info common (inl refl) refl refl
      fails_closed

collect-Exist_example :
    let c = (collect engine sys service none (some info ∷ none ∷ []) []).0 in
    Exist engine.handler_tag c.outbounds c.rules
collect-Exist_example =
    collect-Exist engine sys service none (some info ∷ none ∷ []) [] engine-IsTotal

abbrev parsed : Parsed String
parsed = record { outbound = "out"; removed = true; pinned = false }

parsed_there : parse_custom_route_outbound broken "json" ≡ some parsed
unfolding parse_custom_route_outbound
parsed_there = refl

abbrev route : Route
route = record zero_route { action = "route"; match_rules = "a.b" ∷ []; action_value = some "json" }

abbrev routed_common : CommonNode
routed_common = record zero_node { routes = route ∷ [] }

abbrev routed_info : NodeInfo
routed_info = record info { common = some routed_common }

abbrev is_out : Option String → Bool
is_out none = false
is_out (some h) = h == "out"

never_out : NeverBuilds broken "out"
unfolding has_outbound_with_tag
never_out = record {
  own = refl;
  build = λ d h p. ground (arith, p);
  build_warp = λ o h p. sym (ap is_out p);
}

collect-dangling_example :
    let c = (collect broken sys service none (some routed_info ∷ some info ∷ []) []).0 in
    IsIn (rule_for routed_info route "out") c.rules
    × (has_outbound_with_tag broken.handler_tag c.outbounds "out" ≡ false)
collect-dangling_example =
    collect-dangling broken sys service none (some routed_info ∷ some info ∷ []) [] routed_info
      routed_common route "json" parsed never_out (inl refl) refl (inl refl) refl refl parsed_there
