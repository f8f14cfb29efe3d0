-- ===== src/AnyTls/Runs.antt =====
-- Runs of the AnyTLS server: a probe, a user, and a user's stream.
use xray_r4u.Base.{
  ◌≡◌, ◌↔◌, refl, true, none, some, List, [], ◌∷◌, Bytes, codes, bytes_beq, bytes_eq, ℤ,
}
use xray_r4u.GoMap.{lookup, insert}
use xray_r4u.Limiter.Tests.{test_bucket, key_7}
use xray_r4u.Dispatcher.Tests.{
  maps, chunks, handlers, features, to_ads, state, session, idle, rules,
}
use xray_r4u.Dispatcher.Route.{IsForbidden, Chosen}
use xray_r4u.Dispatcher.Dispatch.{first_targets, request_of}
use xray_r4u.Dispatcher.Obeys.{IsAdmitted}
use xray_r4u.AnyTls.Fallback.{drop}
use xray_r4u.AnyTls.Service.{
  read_bytes, read_hello, update_users, user_table, kick_revoked_sessions,
}
use xray_r4u.AnyTls.Revoke.{has_hash}
use xray_r4u.AnyTls.Hello.{hello_of}
use xray_r4u.AnyTls.Server.{Server, update_server_users}
use xray_r4u.AnyTls.Relay.{Event, Network, Served, fell_back, process, new_connection}
use xray_r4u.AnyTls.Streams.{stream_session, stream_connection, new_stream, PickRoute}
use xray_r4u.AnyTls.Probe.{IsTidy, is_probe, sent, connects, probe_forwarded}
use xray_r4u.AnyTls.Setup.{session_is_of_listed_user}
use xray_r4u.AnyTls.Judged.{handler_reached, stream-Chosen}
use xray_r4u.AnyTls.Tests.{pad, ann, both, no_literal, localhost, nginx, probe, nginx_passes}

abbrev network : Network
network = record {
  parse_ip = no_literal;
  lookup_ip = localhost;
  dials = λ addr. true;
  is_tcp = true;
}

abbrev server : Server
server = record { service = both; padding = []; fallback_handler = some nginx }

is_a_probe : is_probe (read_hello both probe) ≡ true
unfolding read_hello
is_a_probe = refl

probe_forwarded_example :
    (es : List Event) × ((process network server probe ≡ fell_back es)
      × ((sent es ≡ probe) × ((connects es ≡ 1) × IsTidy true es)))
probe_forwarded_example =
    probe_forwarded network server nginx probe refl nginx_passes refl is_a_probe

abbrev hello : Bytes
hello = hello_of (pad (codes "ann")) 0 2 (0 ∷ 0 ∷ []) (codes "x")

abbrev for_ann : Server
for_ann = update_server_users pad (ann ∷ []) server

ann_served :
    process network for_ann hello ≡ Served.session (codes "a|ann|1") (pad (codes "ann")) (codes "x")
unfolding process new_connection read_hello update_server_users update_users user_table
    kick_revoked_sessions insert lookup
ann_served = refl

session_is_of_listed_user_example :
    (has_hash pad (pad (codes "ann")) (ann ∷ []) ≡ true)
    × ((lookup (pad (codes "ann")) for_ann.service.users ≡ some (codes "a|ann|1"))
        × (read_bytes 32 hello ≡ some (pad (codes "ann"), drop 32 hello)))
session_is_of_listed_user_example =
    session_is_of_listed_user pad server network (ann ∷ []) hello (codes "a|ann|1")
      (pad (codes "ann")) (codes "x") ann_served

abbrev no_route : PickRoute maps chunks Bytes ℤ Bytes handlers
no_route s targets = some none

stream-Chosen_example :
    let stream =
      stream_connection maps chunks Bytes ℤ Bytes handlers no_route to_ads key_7
        (codes "5.6.7.8", 443) in
    let user = some (stream_session (some session) key_7) in
    (handler_reached maps chunks Bytes ℤ Bytes handlers (
        new_stream maps chunks Bytes ℤ Bytes handlers test_bucket features no_route to_ads key_7
          (some (codes "5.6.7.8", 443))
          true
          state)
      ≡ some (codes "direct"))
    ↔ ((true ≡ true)
        × (IsAdmitted maps chunks Bytes ℤ Bytes handlers test_bucket user idle
            × ((IsForbidden Bytes handlers bytes_beq user (codes "5.6.7.8") rules → ⊥)
                × Chosen Bytes handlers
                    (request_of maps chunks Bytes ℤ Bytes handlers stream
                      (first_targets maps chunks Bytes ℤ Bytes handlers stream))
                    (codes "direct"))))
stream-Chosen_example =
    stream-Chosen maps chunks Bytes ℤ Bytes handlers test_bucket features no_route to_ads key_7
      (codes "5.6.7.8", 443) true state (codes "direct")
