-- ===== src/Dispatcher/Dispatch.antt =====
-- `Dispatch` and `DispatchLink` of app/mydispatcher/default.go as a whole: admission, sniffing and
-- routing. The two differ in the ends of the link that they wrap, and in what an invalid destination
-- does: `Dispatch` panics, `DispatchLink` returns an error.
use xray_r4u.Base.{ℕ, Bool, Option, none, some, List, [], Bytes, if◌then◌else◌, not, ℤ}
use xray_r4u.Rule.Manager.{RuleManager}
use xray_r4u.Dispatcher.Presence.{Presence}
use xray_r4u.Dispatcher.Link.{Session, Dispatcher, Opened, open_link}
use xray_r4u.Dispatcher.Route.{Outbounds, Request, Routed, routed_dispatch}
use xray_r4u.Dispatcher.Cache.{Pipe, CachedReader, cache_payload}
use xray_r4u.Dispatcher.Sniff.{Answer, ProtocolSniffer, sniff_metadata}
use xray_r4u.Dispatcher.Sniffer.{sniffer}
use xray_r4u.Dispatcher.FakeDns.{Engine, new_sniffer}
use xray_r4u.Dispatcher.Override.{
  SniffingRequest, Destination, Targets, is_tcp, is_net, apply_sniffed,
}

-- What the dispatcher is given by xray-core, for addresses of a type.
pub record Features (A : Type 0) : Type 0 where
  pub matches : Bytes → Bytes → Bool
  pub is_valid : Destination A → Bool
  pub show : Destination A → Bytes
  pub is_ip : A → Bool
  pub parse_address : Bytes → A
  pub three : List ProtocolSniffer
  pub engine : Option (Engine A)
  -- The size of the sniffer's buffer, and whether a payload fills it.
  pub size : ℕ
  pub is_full : Bytes → Bool

module _ (x : Presence) (p : Pipe) (A : Type 0) (B : Type 0) (H : Type 0) (outs : Outbounds H) where
  -- A connection, as its context shows it. The reader is `none` where it is no pipe's.
  pub record Connection : Type 0 where
    pub session : Option Session
    pub destination : Destination A
    pub sniffing : SniffingRequest
    pub reader : Option p.Reader
    -- Whether its context is done at the time of an attempt.
    pub cancelled : ℕ → Bool
    pub in_tag : Bytes
    pub forced_tag : Bytes
    pub pick_route : Targets A → Option (Option Bytes)
    pub access : Option Bytes

  abbrev pub first_targets : Connection → Targets A
  first_targets c = record { target = c.destination; route_target = none; content = none }

  abbrev pub request_of : Connection → Targets A → Request
  request_of c targets = record {
    inbound = c.session;
    in_tag = c.in_tag;
    forced_tag = c.forced_tag;
    route = c.pick_route targets;
    access = c.access;
  }

  abbrev pub sniffers_of : Features A → Connection → List ProtocolSniffer
  sniffers_of f c =
      new_sniffer f.three f.engine
        (record { is_net = is_net c.destination.network; address = c.destination.address })

  abbrev pub pool_of : Option (Engine A) → Option (A → Bool)
  pool_of none = none
  pool_of (some engine) = engine.pool

  abbrev pub applied : Features A → Connection → Answer → Destination A × Targets A
  applied f c answer =
      apply_sniffed f.is_ip (pool_of f.engine) f.parse_address c.sniffing answer c.destination
        (first_targets c)

  -- The destination to route to. Other networks than TCP are sniffed by metadata alone, and a reader
  -- that is no pipe's, as of VLESS with Vision, is not sniffed. `none` is fuel that ran out.
  unfoldable pub sniff_target : Features A → Connection → Option (Destination A × Targets A)
  unfolding sniff_metadata sniffer cache_payload
  sniff_target f c =
      let fresh : Option (CachedReader p) = elim c.reader [
        | none ↦ none
        | some r ↦ some (record { reader = r; cache = [] })
      ] in
      let plain : Destination A × Targets A = (c.destination, first_targets c) in
      if not c.sniffing.enabled
      then some plain
      else if not (is_tcp c.destination.network)
      then some (applied f c (sniff_metadata (sniffers_of f c)).0)
      else elim fresh [
        | none ↦ some plain
        | some r ↦
            elim (sniffer (CachedReader p) (cache_payload p f.size) c.cancelled f.is_full
              c.sniffing.metadata_only (sniffers_of f c) r) [
                | none ↦ none
                | some (answer, r') ↦ some (applied f c answer)
              ]
      ]

  pub record State : Type 0 where
    pub disp : Dispatcher x B
    pub rules : RuleManager

  pub data Outcome : Type 0 where
    invalid : Outcome
    turned_away : Outcome
    -- The limiter's panic.
    crashed : Outcome
    routed : Routed H outs → Outcome

  abbrev pub outcome_handler : Outcome → Option H
  outcome_handler (routed (Routed.handed h detour)) = some h
  outcome_handler _ = none

  module _ (new_bucket : ℕ → ℤ → ℤ → Option B) where
    unfoldable pub dispatch : Features A → Connection → State → Option (Outcome × State)
    unfolding open_link sniff_target routed_dispatch
    dispatch f c st =
        let (opened, d) = open_link x B new_bucket c.session st.disp in
        if not (f.is_valid c.destination) then some (invalid, st) else elim opened [
          | Opened.refused ↦ some (turned_away, record st { disp = d })
          | Opened.crashed ↦ some (crashed, record st { disp = d })
          | Opened.admitted hook verdict ↦ elim (sniff_target f c) [
            | none ↦ none
            | some (dest, targets) ↦
                let (result, rules) =
                  routed_dispatch H outs f.matches (f.show dest) (request_of c targets) st.rules in
                some (routed result, record { disp = d; rules = rules })
          ]
        ]
