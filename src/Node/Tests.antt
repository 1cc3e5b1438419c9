-- ===== src/Node/Tests.antt =====
-- node on concrete inputs.
use zicnode.Prelude.{
  each, load, store, mul64, add64, wrap64, ◌*ℤ◌, ◌+ℤ◌, int_key, ◌≡◌, none, some, false, String,
  refl, List, [], ◌∷◌, pos, string_key,
}
use zicnode.Core.Users.{Engine}
use zicnode.Node.Monitor.{NodeInfo, fetched, Answers, Controller, node_info_monitor}
use zicnode.Node.Monitor.Kept.{IsSynced, node_info_monitor-IsSynced}
use zicnode.Node.Report.{
  accepted, failed, Reporter, is_interrupted, traffic_body, report_user_traffic_task,
}
use zicnode.Node.Report.Lost.{report_user_traffic_task-lost}
use zicnode.Counter.{TrafficCounter, new_traffic_counter, get_up_count, get_down_count, storage, tx}
use zicnode.Counter.Counts.{sends, step, counts, run-IsValid}
use zicnode.Core.Traffic.{uid_of, passes}
use zicnode.Core.Traffic.Exact.{report}
use zicnode.Panel.User.{UserTraffic, UserInfo}
use zicnode.Panel.Search.{Unique}
use zicnode.Limiter.State.{Limiter}
use zicnode.Limiter.Users.{update_user}
use zicnode.Limiter.Registry.{new_limiter}
use zicnode.Node.Diff.{compare_user_list}
use zicnode.Node.Diff.Exact.{IsDiff, compare_user_list-IsDiff}
use zicnode.Node.Sync.{InSync, update_user-InSync, new_limiter-InSync}

abbrev alice : UserInfo
alice = record { id = pos 7; uuid = "a"; speed_limit = pos 8; device_limit = pos 1 }

abbrev bob : UserInfo
bob = record { id = pos 9; uuid = "b"; speed_limit = pos 0; device_limit = pos 0 }

abbrev carol : UserInfo
carol = record { id = pos 11; uuid = "c"; speed_limit = pos 0; device_limit = pos 3 }

-- Bob leaves, Carol comes, Alice becomes faster.
abbrev before : List UserInfo
before = alice ∷ bob ∷ []

abbrev later : List UserInfo
later = carol ∷ record alice { speed_limit = pos 16 } ∷ []

later-Unique : Unique later
later-Unique = (refl, (refl, tt))

compare_user_list-IsDiff_example : IsDiff before later (compare_user_list before later)
compare_user_list-IsDiff_example = compare_user_list-IsDiff before later later-Unique

abbrev start : Limiter
start = new_limiter "vless" "n" before []

start-InSync : InSync "n" before start
start-InSync = new_limiter-InSync "vless" "n" before []

update_user-InSync_example :
    let d = compare_user_list before later in
    InSync "n" later (update_user "n" d.added d.deleted d.modified start)
update_user-InSync_example = update_user-InSync "n" before later start later-Unique start-InSync

abbrev row : UserTraffic
row = record { uid = pos 7; upload = pos 100; download = pos 200 }

abbrev reporter : Reporter
reporter = record {
  tag = "n";
  report_min = pos 0;
  device_min = pos 0;
  uid_map = [];
  counter = [];
  limiter = start;
}

not_interrupted : is_interrupted failed ≡ false
unfolding is_interrupted
not_interrupted = refl

abbrev engine : Engine (List String)
engine = record {
  has_user_manager = λ tag s. some s;
  accepts = λ u. some u;
  add_user = λ tag u s. some (u.email ∷ s);
  remove_user = λ tag email s. some s;
}

abbrev info : NodeInfo
info = record {
  node_type = "vless";
  flow = "";
  cipher = "";
  server_key = "";
  pull_interval = pos 60;
  push_interval = pos 60;
}

abbrev controller : Controller (List String)
controller = record {
  tag = "n";
  info = info;
  node_fingerprint = "vless";
  user_list = before;
  alive_map = [];
  limiter = start;
  server = record {
    engine = [];
    uid_map = [];
    dispatcher = record { counter = []; link_managers = []; managers = []; next = 0 };
    events = [];
  };
  reload_ch = some none;
  monitor_interval = some (pos 60);
  report_interval = some (pos 60);
}

abbrev answers : Answers
answers = record {
  node_info = fetched (some (record info { pull_interval = pos 30 }));
  user_list = fetched (some later);
  user_alive = fetched (some []);
}

node_info_monitor-IsSynced_example :
    IsSynced (node_info_monitor engine (λ n. n.node_type) answers controller).0
node_info_monitor-IsSynced_example =
    node_info_monitor-IsSynced engine (λ n. n.node_type) answers controller later-Unique
      start-InSync

abbrev counting : TrafficCounter
counting = each step (sends "n|a" (pos 4000) ∷ []) new_traffic_counter

abbrev reporting : Reporter
reporting = record reporter { uid_map = ("n|a", pos 7) ∷ []; counter = ("n", counting) ∷ [] }

-- There is a row, which the failed report loses.
has_row :
    report (pos 0) reporting.uid_map (λ u. counts u counting) counting.table
    ≡ record { uid = pos 7; upload = pos 4000; download = pos 0 } ∷ []
unfolding uid_of passes load store mul64 add64 wrap64 ◌*ℤ◌ ◌+ℤ◌ each step get_up_count
    get_down_count storage tx
has_row = refl

report_user_traffic_task-lost_example :
    let first = report_user_traffic_task failed accepted reporting in
    let second = report_user_traffic_task accepted accepted first.reporter in
    (first.traffic
      ≡ traffic_body (report (pos 0) reporting.uid_map (λ u. counts u counting) counting.table))
    × (second.traffic ≡ none)
unfolding load mul64 wrap64 ◌*ℤ◌
report_user_traffic_task-lost_example =
    report_user_traffic_task-lost failed accepted accepted accepted reporting counting refl refl
      (run-IsValid (sends "n|a" (pos 4000) ∷ []))
