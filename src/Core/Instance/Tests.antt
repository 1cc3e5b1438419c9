-- ===== src/Core/Instance/Tests.antt =====
-- core/core.go on a core with one link.
use zicnode.Prelude.{true, false, some, [], ◌∷◌, ◌≡◌, refl, load, string_key, nat_key}
use zicnode.Conf.{new_conf}
use zicnode.Dispatcher.Log.{Fields, text}
use zicnode.Dispatcher.Link.{ManagedWriter, source, LinkManager, count}
use zicnode.Dispatcher.Table.{DefaultDispatcher, active_link_count}
use zicnode.Dispatcher.Table.Drain.{IsValid}
use zicnode.Core.Instance.{
  V2Core, new_core, Started, prepare, start_prepared, links_of, close_with_reason,
}
use zicnode.Core.Instance.Closed.{IsClosed, close_with_reason-IsClosed}

abbrev writer : ManagedWriter
writer = record { id = 1; writer = 10; manager = 0 }

abbrev manager : LinkManager
manager = record { links = (1, (writer, source 11)) ∷ [] }

abbrev dispatcher : DefaultDispatcher
dispatcher = record {
  counter = [];
  link_managers = ("n|a", 0) ∷ [];
  managers = (0, manager) ∷ [];
  next = 2;
}

dispatcher-IsValid : IsValid dispatcher
unfolding load
dispatcher-IsValid = record { distinct = (refl, tt); owned = ((manager, refl, (refl, tt)), tt, tt) }

abbrev started : Started
started = record {
  starts = true;
  has_inbounds = true;
  has_outbounds = true;
  dispatcher = some dispatcher;
}

abbrev running : V2Core
running = record {
  config = some new_conf;
  server = some 5;
  has_inbounds = true;
  has_outbounds = true;
  dispatcher = some dispatcher;
}

runs : start_prepared started (prepare (some 5) (new_core new_conf)).1 ≡ (true, running)
unfolding start_prepared prepare
runs = refl

has_link : links_of running ≡ 1
unfolding links_of active_link_count count load
has_link = refl

abbrev fields : Fields
fields = ("by", text "reload") ∷ []

close_with_reason-IsClosed_example :
    IsClosed false running (close_with_reason false "shutdown" fields running)
close_with_reason-IsClosed_example =
    close_with_reason-IsClosed false "shutdown" fields running refl dispatcher-IsValid
