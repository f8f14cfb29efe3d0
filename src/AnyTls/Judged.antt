-- ===== src/AnyTls/Judged.antt =====
-- How the dispatcher takes a stream of an AnyTLS session (proxy/anytls/inbound.go).
use xray_r4u.Base.{
  ℕ, ℤ, ◌≡◌, ◌↔◌, refl, Bool, true, Option, none, some, Bytes, inl, inr, Bool-cases,
}
use xray_r4u.Dispatcher.Presence.{Presence}
use xray_r4u.Dispatcher.Route.{Outbounds, IsForbidden, Chosen}
use xray_r4u.Dispatcher.Cache.{Pipe}
use xray_r4u.Dispatcher.Dispatch.{
  Features, Connection, State, sniff_target, first_targets, request_of,
}
use xray_r4u.Dispatcher.Obeys.{handler_at, IsAdmitted, dispatch-Chosen}
use xray_r4u.AnyTls.Streams.{
  stream_session, stream_destination, PickRoute, stream_connection, Streamed, dispatched,
  new_stream,
}

module _ (x : Presence) (p : Pipe) (A : Type 0) (B : Type 0) (H : Type 0) (outs : Outbounds H) where
  abbrev pub handler_reached : Streamed x p A B H outs → Option H
  handler_reached (dispatched r) = handler_at x p A B H outs r
  handler_reached _ = none

  stream-unsniffed :
      (f : Features A) (pick : PickRoute x p A B H outs) (c : Connection x p A B H outs)
      (name : Bytes) (target : A × ℕ)
      → let stream = stream_connection x p A B H outs pick c name target in
        sniff_target x p A B H outs f stream
        ≡ some (stream.destination, first_targets x p A B H outs stream)
  unfolding sniff_target stream_connection
  stream-unsniffed f pick c name target = elim (Bool-cases c.sniffing.enabled) [
    | inl on ↦ rw on refl
    | inr off ↦ rw off refl
  ]

  module _ (new_bucket : ℕ → ℤ → ℤ → Option B) where
    -- A stream reaches a handler exactly if its destination is valid, the limiter neither
    -- rejects the session's user at the inbound's tag and source nor panics, the rules do not refuse the destination as the
    -- client asked for it, and the handler is the one chosen for the stream: whatever the inbound asks
    -- for, a stream is not sniffed.
    pub stream-Chosen :
        (f : Features A) (pick : PickRoute x p A B H outs) (c : Connection x p A B H outs)
        (name : Bytes) (target : A × ℕ) (has_hook : Bool) (st : State x p A B H outs) (h : H)
        → let stream = stream_connection x p A B H outs pick c name target in
          let user = some (stream_session c.session name) in
          let dest = stream_destination target in
          (handler_reached
              (new_stream x p A B H outs new_bucket f pick c name (some target) has_hook st)
            ≡ some h)
          ↔ ((f.is_valid dest ≡ true)
              × (IsAdmitted x p A B H outs new_bucket user st.disp
                  × ((IsForbidden H outs f.matches user (f.show dest) st.rules → ⊥)
                      × Chosen H outs
                          (request_of x p A B H outs stream (first_targets x p A B H outs stream))
                          h)))
    unfolding new_stream stream_connection
    stream-Chosen f pick c name target has_hook st h =
        let stream = stream_connection x p A B H outs pick c name target in
        dispatch-Chosen x p A B H outs new_bucket f stream st stream.destination
          (first_targets x p A B H outs stream) h (stream-unsniffed f pick c name target)
