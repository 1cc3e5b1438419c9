-- ===== src/Core/Instance.antt =====
-- core/core.go and core/node.go: the life of the core. An instance of the engine is a number; what it
-- answers is given. A feature that is there is true.
pub mod Closed
mod Tests
use zicnode.Prelude.{
  ℕ, Bool, true, false, not, String, Option, none, some, List, [], ◌∷◌, ◌⊎◌, inl, inr, string_key,
  ◌==◌, if◌then◌else◌,
}
use zicnode.Conf.{Conf}
use zicnode.Panel.Config.{NodeInfo, CommonNode}
use zicnode.Dispatcher.Log.{Fields}
use zicnode.Dispatcher.Link.{LinkEvent}
use zicnode.Dispatcher.Table.{DefaultDispatcher, active_link_count, close_all_managed_links}
use zicnode.Core.Inbound.{Inbound, Formats}
use zicnode.Core.Inbound.Assemble.{build_inbound}

pub record V2Core : Type 0 where
  pub config : Option Conf
  pub server : Option ℕ
  pub has_inbounds : Bool
  pub has_outbounds : Bool
  pub dispatcher : Option DefaultDispatcher

abbrev pub new_core : Conf → V2Core
new_core c = record {
  config = some c;
  server = none;
  has_inbounds = false;
  has_outbounds = false;
  dispatcher = none;
}

-- The result is whether there was no error. `made` is what getCore gives.
unfoldable pub prepare : Option ℕ → V2Core → Bool × V2Core
prepare none v = (false, v)
prepare (some server) v = (true, record v { server = some server })

-- Whether the instance starts, and the features that it has then.
pub record Started : Type 0 where
  pub starts : Bool
  pub has_inbounds : Bool
  pub has_outbounds : Bool
  pub dispatcher : Option DefaultDispatcher

abbrev with_dispatcher : Option DefaultDispatcher → V2Core → Bool × V2Core
with_dispatcher none v = (false, v)
with_dispatcher (some d) v =
    (true, record v { has_inbounds = true; has_outbounds = true; dispatcher = some d })

-- The features are kept only if all three are there.
abbrev with_features : Bool → Bool → Bool → Option DefaultDispatcher → V2Core → Bool × V2Core
with_features true true true d v = with_dispatcher d v
with_features true true false d v = (false, v)
with_features true false o d v = (false, v)
with_features false i o d v = (false, v)

abbrev on_server : Option ℕ → Started → V2Core → Bool × V2Core
on_server none s v = (false, v)
on_server (some server) s v = with_features s.starts s.has_inbounds s.has_outbounds s.dispatcher v

unfoldable pub start_prepared : Started → V2Core → Bool × V2Core
start_prepared s v = on_server v.server s v

unfoldable pub links_of : V2Core → ℕ
unfolding active_link_count
links_of v = elim v.dispatcher [ none ↦ 0 | some d ↦ active_link_count d ]

pub record Ending : Type 0 where
  pub is_ok : Bool
  pub core : V2Core
  pub dispatcher : Option DefaultDispatcher
  pub events : List LinkEvent

-- What becomes of the dispatcher, which the core then lets go.
abbrev pub emptied :
    Bool → String → Fields → Option DefaultDispatcher → Option DefaultDispatcher × List LinkEvent
emptied named reason fields none = (none, [])
emptied true reason fields (some d) =
    let r = close_all_managed_links reason fields d in (some r.dispatcher, r.events)
emptied false reason fields (some d) = (some d, [])

abbrev pub without_server : Bool → Option ℕ → V2Core → Bool × V2Core
without_server closes none v = (true, v)
without_server true (some server) v = (true, record v { server = none })
without_server false (some server) v = (false, v)

-- `closes` is whether the instance closes without an error.
unfoldable pub close_with_reason : Bool → String → Fields → V2Core → Ending
unfolding close_all_managed_links
close_with_reason closes reason fields v =
    let links = emptied (not (reason == "")) reason fields v.dispatcher in
    let r = without_server closes v.server (record v {
      config = none;
      has_inbounds = false;
      has_outbounds = false;
      dispatcher = none;
    }) in
    record { is_ok = r.0; core = r.1; dispatcher = links.0; events = links.1 }

abbrev added_if : {T : Type 0} → (Inbound T → Bool) → {E : Type 0} → E ⊎ Inbound T → Bool
added_if takes (inl e) = false
added_if takes (inr i) = takes i

-- `takes` is whether the engine builds and adds the inbound.
unfoldable pub add_node :
    {T : Type 0}
    → (Inbound T → Bool)
    → Formats T
    → Option String
    → NodeInfo
    → CommonNode
    → String
    → Bool
unfolding build_inbound
add_node takes f random info v tag = added_if takes (build_inbound f random info v tag)
