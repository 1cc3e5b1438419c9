-- ===== src/Lib.antt =====
-- A verification library for ZicNode, the daemon that serves the users of a ZicBoard panel on a node.
--
-- The program. `cmd/server.go` reads the configuration (`conf/conf.go`), prepares a runtime, which is a
-- core (`core/`, a wrapper of the proxy engine Xray) with a controller for each node (`node/`), and on an
-- event (`common/reload`) reloads it. A controller asks the panel (`api/zicboard`) for the node's users,
-- tells the core and the limiter (`limiter/`) what has changed, and reports traffic and devices. The
-- dispatcher (`core/app/dispatcher`) asks the limiter for every connection, keeps the open links of each
-- user so that they can be closed, counts their bytes (`common/counter`) and slows them down
-- (`common/rate`).
--
-- The files.
--   Prelude     Go's integers, maps, strings, loops and JSON values, and equality of keys as an interface.
--   Format      common/format/user.go: the key of a user under a node.
--   Panel       api/zicboard: User (the records of users), Report (the body of ReportUserTraffic), Node
--               (EffectiveSecurity, CertTarget and the like); Search: lists of users as tables.
--               Config (the records of a node), Decode (the lenient UnmarshalJSON methods), Client (panel.go,
--               GetNodeInfo, GetUserList, GetUserAlive).
--   Rate        common/rate/writer.go: shared buckets, by address in a heap.
--   Limiter     limiter/limiter.go and limiter/dynamic.go: State (the records), Speed
--               (determineSpeedLimit), Check (CheckLimit), Users (UpdateUser and
--               UpdateDynamicSpeedLimit), Online (GetOnlineDevice), Registry (Init, NewLimiter,
--               AddLimiter, GetLimiter, DeleteLimiter).
--   Counter     common/counter: TrafficCounter and XrayTrafficCounter.
--   Conf        conf/conf.go; conf/watch.go: Watch, with Burst (changes in quick succession).
--   Core        core/user.go: Account (the builders of accounts), Users (AddUsers, DelUsers), Traffic
--               (GetUserTrafficSlice); core/warp.go: Warp (settings), with Response (the answer to a
--               registration), Sidecar (the file that keeps an identity), Resolve (the runtime and the
--               outbound), Base64; core/custom.go: Routing, with Sanitize (custom outbounds) and Build
--               (GetCustomConfig); core/inbound.go: Inbound (the data), with Build (by protocol) and
--               Assemble (buildInbound); core/core.go: Instance (Prepare, StartPrepared, CloseWithReason).
--   Node        node/user.go: Diff (compareUserList), Report (reportUserTrafficTask); node/task.go:
--               Monitor (nodeInfoMonitor, applyRuntimeNodeInfo), Sync (its effect on the limiter);
--               node/cert.go: Cert (certificates, files, targets), with Request (the requests by mode);
--               node/controller.go and node/node.go: Life (Prepare, StartPrepared, Close of a
--               controller), with All (of all controllers).
--   Server      cmd/server.go: Signature, Reload; common/reload/event.go: Event.
--   Task        common/task/task.go: a task with its goroutines as a step relation.
--   Dispatcher  core/app/dispatcher: Log (logConnectionDrop, logRouteDrop), Link (LinkManager), Table
--               (ActiveLinkCount, CloseAllManagedLinks), Open (getLink, DispatchLink), Override
--               (shouldOverride), Route (routedDispatch), Sniff (Sniffer, the loop of sniffer).
-- A function keeps its name, in lower case; its state is an argument and a result. What a child module
-- is called after a component says what it proves: Decision, Effects, Exact, Kept. JSON values are a data
-- type of their own, whose numbers keep their literal; texts are of ASCII characters where case or bytes
-- matter.
--
-- The conventions. Go's `int` and `int64` are integers with the wrap-around of 64 bits written out in
-- sums and products. A `sync.Map` or a map is an association list, in the order in which a `range` meets
-- the entries; the theorems hold for every order. Pointers that are shared (buckets, storages, limiters,
-- link managers) are addresses in a heap. Each call of a method is one atomic step. `time.Now` is an
-- argument. A loop is recursion on the list that it runs over, so no fuel is used; the loop of the
-- sniffer runs over the rounds to come, and two of them are enough. A panic is `none`.
--
-- Parameters. The third-party code is given: the token buckets, the user managers and handlers of the
-- proxy engine, its sniffers of single protocols, its fake DNS and address parser, the decoding of the
-- configuration file, JSON texts and SHA-256, strconv.ParseFloat, the curve and the random bytes of a WARP
-- identity, the builders of the engine's configuration, the file system and its notifications, X.509 certificates
-- and their issuer, and the answers of the panel.
--
-- Not modelled: the HTTP client of the panel, ACME and the making of certificates (node/lego.go and parts
-- of node/cert.go), the copies of a node's information (node/clone.go), the constant part of the engine's
-- configuration (getCore), the wrappers of cryptography, files and processes, generated code, and the
-- scripts.
mod Prelude
pub mod Format
pub mod Panel
pub mod Rate
pub mod Limiter
pub mod Counter
pub mod Conf
pub mod Core
pub mod Node
pub mod Server
pub mod Dispatcher
pub mod Task
