-- ===== src/Dispatcher/Tests.antt =====
-- core/app/dispatcher on concrete inputs.
use zicnode.Prelude.{
  ℕ, ltb, true, false, String, ◌≡◌, refl, none, some, [], ◌∷◌, pos, load, string_key, nat_key,
  arith, ◌==◌, if◌then◌else◌,
}
use zicnode.Panel.User.{UserInfo}
use zicnode.Limiter.Registry.{Limiters, init, add_limiter}
use zicnode.Dispatcher.Link.{ManagedWriter, source, LinkManager}
use zicnode.Dispatcher.Table.{DefaultDispatcher}
use zicnode.Dispatcher.Table.Drain.{IsValid}
use zicnode.Dispatcher.Open.{Inbound, Pipes, World, give_up, get_link}
use zicnode.Dispatcher.Open.Valid.{IsAllocated}
use zicnode.Dispatcher.Open.Decides.{IsDecided, endings_of, get_link-IsDecided}
use zicnode.Dispatcher.Override.{SniffResult, Address, SniffingRequest, Outbound, redirect}
use zicnode.Dispatcher.Override.Exact.{IsRedirected, redirect-IsRedirected}
use zicnode.Dispatcher.Route.{OutboundManager, routed_dispatch}
use zicnode.Dispatcher.Route.Chosen.{served_by, routed_dispatch-served_by}
use zicnode.Dispatcher.Sniff.{
  tcp, udp, no_clue, need_more_data, found, fails, Answer, ProtocolSniffer, cached, sniff_content,
}
use zicnode.Dispatcher.Sniff.Ends.{sniff_content-ends}

abbrev user : UserInfo
user = record { id = pos 7; uuid = "a"; speed_limit = pos 0; device_limit = pos 1 }

abbrev limiters : Limiters
limiters = (add_limiter "vless" "n" (user ∷ []) [] init).0

abbrev managed_writer : ManagedWriter
managed_writer = record { id = 1; writer = 10; manager = 0 }

abbrev manager : LinkManager
manager = record { links = (1, (managed_writer, source 11)) ∷ [] }

abbrev dispatcher : DefaultDispatcher
dispatcher = record {
  counter = [];
  link_managers = ("n|a", 0) ∷ [];
  managers = (0, manager) ∷ [];
  next = 2;
}

abbrev world : World
world = record { limiters = limiters; dispatcher = dispatcher }

dispatcher-IsValid : IsValid dispatcher
unfolding load
dispatcher-IsValid = record { distinct = (refl, tt); owned = ((manager, refl, (refl, tt)), tt, tt) }

dispatcher-IsAllocated : IsAllocated dispatcher
unfolding load
dispatcher-IsAllocated = record { valid = dispatcher-IsValid; below = ground arith }

abbrev inbound : Inbound
inbound = record {
  tag = "n";
  email = "n|a";
  ip = "10.0.0.1";
  is_tcp = true;
  can_splice_copy = pos 0;
}

abbrev pipes : Pipes
pipes = record {
  uplink_reader = 20;
  uplink_writer = 21;
  downlink_reader = 22;
  downlink_writer = 23;
}

get_link-IsDecided_example :
    let r = get_link (pos 100) none pipes inbound world in
    IsDecided (pos 100) inbound world (give_up pipes) r.0.dispatcher (endings_of r.1)
get_link-IsDecided_example =
    get_link-IsDecided (pos 100) none pipes inbound world dispatcher-IsAllocated

manager_there : load 0 dispatcher.managers ≡ some manager
unfolding load
manager_there = refl

abbrev tag_of : String → String
tag_of h = h

abbrev outbounds : OutboundManager tag_of
outbounds = record {
  get_handler = λ tag. if tag == "direct" then some "direct" else none;
  default_handler = some "first";
}

routed_dispatch-served_by_example :
    served_by tag_of (routed_dispatch tag_of outbounds (some none) "warp" "n" true none)
    ≡ outbounds.get_handler "warp"
routed_dispatch-served_by_example =
    routed_dispatch-served_by tag_of outbounds (some none) "warp" "n" true none

abbrev http : ProtocolSniffer ℕ String
http = record {
  protocol_sniffer = λ p. if ltb 0 p then found "http" else fails no_clue;
  metadata_sniffer = false;
  network = tcp;
}

abbrev quic : ProtocolSniffer ℕ String
quic = record {
  protocol_sniffer = λ p. fails need_more_data;
  metadata_sniffer = false;
  network = udp;
}

sniff_content-ends_example :
    (answer : Answer String) × (sniff_content tcp
        (cached 5 (some 0) ∷ cached 5 (some 1) ∷ [])
        200000000
        0
        (http ∷ [])
      ≡ some answer)
sniff_content-ends_example =
    sniff_content-ends tcp (cached 5 (some 0)) (cached 5 (some 1)) [] 200000000 (http ∷ [])

abbrev parse : String → Address
parse s = record { text = s; is_ip = false }

abbrev sniffed_tls : SniffResult
sniffed_tls = record {
  domain = "example.org";
  protocol = "tls";
  protocol_for_domain = none;
  proto_subset_of = none;
}

abbrev request : SniffingRequest
request = record {
  enabled = true;
  metadata_only = false;
  route_only = false;
  exclude_for_domain = none;
  exclude_for_ip = none;
  override_destination_for_protocol = "http" ∷ "tls" ∷ [];
}

abbrev by_ip : Address
by_ip = record { text = "93.184.216.34"; is_ip = true }

abbrev target : Outbound
target = record { target = by_ip; route_target = none }

redirect-IsRedirected_example :
    IsRedirected parse none true sniffed_tls request by_ip target
      (redirect parse none true (some sniffed_tls) request by_ip target)
redirect-IsRedirected_example =
    redirect-IsRedirected parse none true sniffed_tls request by_ip target
