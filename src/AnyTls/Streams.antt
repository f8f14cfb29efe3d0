-- ===== src/AnyTls/Streams.antt =====
-- A stream of an AnyTLS session (`tcpHandlerEx.NewConnectionEx` of proxy/anytls/inbound.go): its own
-- copy of the inbound's session, and its way through the dispatcher.
use xray_r4u.Base.{ℕ, ℤ, Bool, Option, none, some, [], Bytes, if◌then◌else◌}
use xray_r4u.Dispatcher.Presence.{Presence}
use xray_r4u.Dispatcher.Link.{Session}
use xray_r4u.Dispatcher.Route.{Outbounds}
use xray_r4u.Dispatcher.Cache.{Pipe}
use xray_r4u.Dispatcher.Override.{Destination, Targets, tcp}
use xray_r4u.Dispatcher.Dispatch.{Features, Connection, State, Outcome, dispatch}

-- Without an inbound on the context there is neither tag nor source.
abbrev pub stream_session : Option Session → Bytes → Session
stream_session none name = record { tag = []; source = none; user = some name }
stream_session (some shared) name = record {
  tag = shared.tag;
  source = shared.source;
  user = some name;
}

-- `singbridge.ToDestination` gives an address and a port, or an error.
abbrev pub stream_destination : {A : Type 0} → A × ℕ → Destination A
stream_destination (address, port) = record { network = tcp; address = address; port = port }

module _ (x : Presence) (p : Pipe) (A : Type 0) (B : Type 0) (H : Type 0) (outs : Outbounds H) where
  -- How the router picks, for the inbound's session that its context has.
  abbrev pub PickRoute : Type 0
  PickRoute = Session → Targets A → Option (Option Bytes)

  -- The context is that of the connection below; the stream's reader is no pipe's.
  unfoldable pub stream_connection :
      PickRoute → Connection x p A B H outs → Bytes → A × ℕ → Connection x p A B H outs
  stream_connection pick c name target = record c {
    session = some (stream_session c.session name);
    destination = stream_destination target;
    reader = none;
    in_tag = (stream_session c.session name).tag;
    pick_route = pick (stream_session c.session name);
  }

  -- The caller's hook is told, the stream is closed, or it went to the dispatcher.
  pub data Streamed : Type 0 where
    told : Streamed
    closed : Streamed
    dispatched : Option (Outcome x p A B H outs × State x p A B H outs) → Streamed

  module _ (new_bucket : ℕ → ℤ → ℤ → Option B) where
    unfoldable pub new_stream :
        Features A
        → PickRoute
        → Connection x p A B H outs
        → Bytes
        → Option (A × ℕ)
        → Bool
        → State x p A B H outs
        → Streamed
    unfolding dispatch stream_connection
    new_stream f pick c name none has_hook st = if has_hook then told else closed
    new_stream f pick c name (some target) has_hook st =
        dispatched (dispatch x p A B H outs new_bucket f (stream_connection pick c name target) st)
