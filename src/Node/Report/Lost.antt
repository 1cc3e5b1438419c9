-- ===== src/Node/Report/Lost.antt =====
-- node/user.go, `reportUserTrafficTask`: two reports, of which the panel may not take the first.
use zicnode.Prelude.{◌≡◌, ap, ◌∙◌, some, none, load, string_key}
use zicnode.Counter.{TrafficCounter}
use zicnode.Counter.Counts.{IsValid, counts}
use zicnode.Core.Traffic.Exact.{report, get_user_traffic_slice-exact}
use zicnode.Core.Traffic.Once.{IsThreshold, slice_twice}
use zicnode.Node.Report.{Sent, Reporter, traffic_body, report_user_traffic_task}
use zicnode.Node.Report.Grouped.{report_user_traffic_task-left}

-- Two reports without traffic in between, over counters that are valid, with a threshold that is not
-- negative in bytes. The first sends the traffic of every known user who passes the threshold.
-- However its call of the panel ends, retries included and also with an error, the second sends no
-- traffic: what the panel did not take is not sent again.
pub report_user_traffic_task-lost :
    (sent sent' online_sent online_sent' : Sent) (r : Reporter) (c : TrafficCounter)
    → IsThreshold r.report_min
    → load r.tag r.counter ≡ some c
    → IsValid c
    → let first = report_user_traffic_task sent online_sent r in
      let second = report_user_traffic_task sent' online_sent' first.reporter in
      (first.traffic ≡ traffic_body (report r.report_min r.uid_map (λ u. counts u c) c.table))
      × (second.traffic ≡ none)
report_user_traffic_task-lost sent sent' online_sent online_sent' r c t e h =
    let first = report_user_traffic_task sent online_sent r in
    let a = report_user_traffic_task-left sent online_sent r in
    let b = report_user_traffic_task-left sent' online_sent' first.reporter in
    let x = get_user_traffic_slice-exact r.tag r.report_min r.uid_map r.counter c e h in
    let y = slice_twice r.tag r.report_min r.uid_map r.counter c t e h in
    (a.1 ∙ ap traffic_body x.2, b.1 ∙ rw (a.2, a.3, a.4, a.0) (ap traffic_body y))
