-- ===== src/Lib.antt =====
-- The node agent XrayR4u: it fetches a node's configuration, users and audit rules from a panel,
-- drives an embedded xray-core, limits each user's devices and rate, refuses forbidden
-- destinations, and reports traffic, devices and refusals to the panel.
--
-- Parts and files:
--   * Base, GoMap, Text: Boolean tests, integers, Go's maps as association lists with their laws,
--     and what the program takes from strings, strconv, fmt and net. Case folding and trimming are
--     those of ASCII.
--   * Api: api/apimodel.go and api/security.go, the data that the parts exchange.
--   * Limiter: common/limiter/limiter.go. Online has the tracker of a user's addresses (tryAdd,
--     remove, copyAll), Rate determineRate, Registry the operations of Limiter. Throttle has
--     rate.go and the wrappers of a link. Slots, Admission, Prune, Users, Tracked and Devices have
--     their laws; Connections is the life of connections as a step relation, as
--     app/mydispatcher/default.go opens and closes them, Race an admission that a prune falls into,
--     and Panics when the bucket's constructor panics.
--   * Rule: common/rule/rule.go. Manager has the operations; Detection, Hits, Update their laws;
--     Ledger a history of calls.
--   * Panel: api/v2board/v2board.go and common/regexutil/regexutil.go. Json is the interface of
--     go-simplejson, Client the client's state and parseResponse; Node, Users and Rules are the
--     parsers, Illegal and Kick the illegal report and its answer, Push the bodies of the other
--     reports, Fetch the set-up, the requests and GetNodeInfo, Redact and Url what logs may show.
--     Limits, Patterns and Report have the laws.
--   * Dispatcher: app/mydispatcher. Link is trackConnection and what getLink and DispatchLink do to
--     admit a connection, Cache cachedReader, Sniff and FakeDns the sniffers, Sniffer the loop of
--     sniffer, Override shouldOverride and the new destination, Route routedDispatch, Dispatch all
--     of them in the order of Dispatch and DispatchLink, Meter stats.go; Presence is the interface
--     of the online maps. Refine maps its events to the steps of Limiter/Connections; Sound,
--     Unhooked, First and Obeys have further laws.
--   * AnyTls: proxy/anytls. Fallback is fallback.go, Service the user table, the session table and
--     the first packet of lib/service.go, Server and Relay NewServer, Process and the fallback of
--     inbound.go, Streams its streams. Blocked, Revoke, Hello, Setup, Probe and Judged have laws,
--     Sessions the life of sessions as a step relation.
--   * Certs: common/legocmd/lego.go. Keys is allowedDNSEnvKey, Environment applyDNSEnv with its
--     cleanup, Issue DNSCert, HTTPCert and RenewCert, System the interface of the operating system
--     and of the ACME client. Restore, Guard, Leak, Overlap and Obtained have the laws, and Served
--     those of the builder's TLS settings with such certificates.
--   * Runner: panel/panel.go, panel/config.go, panel/defaultConfig.go, main/main.go and main/tools.
--     Config has the configuration, Core loadCore, Panel Start and Close, Watch the reload loop,
--     Tools the generators. Reload and Stale have the laws.
--   * Controller: service/controller. Stream is stream_resolve.go and the choices of
--     inboundbuilder.go, Diff compareUserList, Changed nodeInfoEqual, Start the start-up, Replace
--     applyNodeInfoChange with its helpers, Sync the takeover of a user list and
--     applyIllegalKickUIDs, Monitor nodeInfoMonitor and Close, Reports userInfoMonitor, Traffic the
--     drain and the refund of counters; Core is the interface of xray-core. Builder holds
--     inboundbuilder.go, outboundbuilder.go and the builders of stream_resolve.go, from the
--     settings of TLS and XHTTP to the handler config. Resolved, Forced, Transaction, Started,
--     Ticks, Refresh and Refund have the laws, and Built and Paths those of Builder.
--
-- Interaction: the controller owns a limiter and a rule manager by the dispatcher it drives, keyed
-- by the inbound's tag, and users by the key "tag|email|uid", which limiter, counters and hit
-- counters share. The dispatcher asks the limiter when a connection comes and releases at its close
-- hook, and asks the rule manager when it routes. AnyTLS streams come to it by DispatchLink. The
-- panel client's rule lists go to the rule manager, its kick list to the controller.
--
-- Arguments: the constructor of a rate bucket, regexp matching and compiling, go-simplejson, the
-- text of encoding/json, xray-core's managers, counters, online maps, pipes, protocol sniffers,
-- router, handlers and Build methods, the sources of certificates, net.ParseIP and net.LookupIP,
-- SHA-256, padding schemes, viper, files, the variables of the process and the ACME client. The
-- laws of the core's interface say that a call for one tag leaves the handlers of other tags alone,
-- and those of the counters what Set(0) and Add do. Some results add what they need of these by name: that the core's removal of an
-- inbound leaves no handler, when the constructor of a bucket panics, and which nodes viper's
-- decoding onto a configuration keeps.
--
-- Choices: a Go map is an association list with one entry a key, and a range over it goes in the
-- list's order; the results say nothing that depends on the order but in the order of a report. A
-- call is one step, and interleavings are sequences of calls. Locks make a step of the trackers'
-- methods, of the hit counters' and of the session table's; GetUserBucket and PruneStaleEntries
-- share none, so the histories of Connections and Sound are those in which each such call runs to
-- its end before the next begins, and Race has the other case. A panic of the bucket's constructor
-- ends the process, so it ends a history too. A reload decodes a file onto the configuration that
-- is there, by an argument. A 64-bit rate is a natural number below 2^64, with the wrap-around
-- written out where the source converts; sums of hits and of counters are exact, so they stand for
-- runs that stay below 2^63. All recursion is on lists or trees, but for the digits of a number
-- `n`, where `n + 1` rounds of fuel are enough, since each divides by ten, and for the sniffing
-- loop, where three rounds are enough, since the third gives up. The controller's model takes the
-- answers of the builders as arguments, with the tag of what they build.
--
-- Not modelled: when DispatchLink returns to its caller, the copying of data between the ends of a
-- link, the session protocol below proxy/anytls/lib (a copy of sing-anytls), common/legocmd/cmd (a
-- copy of lego), common/serverstatus (the operating system), vendored and generated code, logging
-- and the texts of errors.
pub mod Base
pub mod GoMap
pub mod Text
pub mod Api
pub mod Limiter
pub mod Rule
pub mod Panel
pub mod Dispatcher
pub mod AnyTls
pub mod Controller
pub mod Certs
pub mod Runner
