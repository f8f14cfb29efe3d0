-- ===== src/Dispatcher/Override.antt =====
-- What app/mydispatcher/default.go makes of a sniffing result: `shouldOverride`, and the new
-- destination that `Dispatch` and `DispatchLink` give to the outbound.
use xray_r4u.Base.{
  ℕ, Bool, true, false, Option, none, some, List, [], ◌∷◌, Bytes, bytes_beq, if◌then◌else◌, ◌&&◌,
  ◌||◌, not, codes,
}
use xray_r4u.Text.{is_empty, has_prefix, to_lower}
use xray_r4u.Dispatcher.Sniff.{
  SniffResult, Answer, found, domain, protocol, protocol_for_domain, is_proto_subset_of,
}

pub record SniffingRequest : Type 0 where
  pub enabled : Bool
  pub metadata_only : Bool
  pub route_only : Bool
  pub protocols : List Bytes
  -- A nil matcher excludes nothing.
  pub excludes : Bytes → Bool

-- xray-core's networks.
pub data Network : Type 0 where
  unknown : Network
  tcp : Network
  udp : Network
  unix : Network

abbrev pub is_tcp : Network → Bool
is_tcp tcp = true
is_tcp _ = false

abbrev pub is_net : Network → Bool
is_net tcp = true
is_net udp = true
is_net _ = false

pub record Destination (A : Type 0) : Type 0 where
  pub network : Network
  pub address : A
  pub port : ℕ

-- The connection's outbound and the protocol of its content.
pub record Targets (A : Type 0) : Type 0 where
  pub target : Destination A
  pub route_target : Option (Destination A)
  pub content : Option Bytes

module _ {A : Type 0} (is_ip : A → Bool) (in_pool : Option (A → Bool))
    (parse_address : Bytes → A) where
  -- The fake DNS missed: the address is of its pool.
  abbrev pub is_in_pool : A → Bool
  is_in_pool a = elim in_pool [ none ↦ false | some f ↦ is_ip a && f a ]

  abbrev pub fits : SniffResult → A → Bytes → Bool
  fits result a p =
      let name = protocol_for_domain result in
      has_prefix name p
      || ((not (bytes_beq name (codes "bittorrent"))
            && (bytes_beq p (codes "fakedns") && is_in_pool a))
          || is_proto_subset_of result p)

  abbrev pub any_fits : SniffResult → A → List Bytes → Bool
  any_fits result a [] = false
  any_fits result a (p ∷ ps) = fits result a p || any_fits result a ps

  unfoldable pub should_override : SniffingRequest → SniffResult → A → Bool
  unfolding domain
  should_override request result a =
      if is_empty (domain result)
      then false
      else if request.excludes (to_lower (domain result))
      then false
      else any_fits result a request.protocols

  -- The sniffed domain is the new address; it is only routed by, and not dialled, with `route_only`
  -- and a name that the fake DNS did not make.
  unfoldable pub override :
      SniffingRequest → SniffResult → Destination A → Targets A → Destination A × Targets A
  unfolding should_override protocol domain
  override request result dest targets =
      let dest' : Destination A = record dest { address = parse_address (domain result) } in
      let keeps_target =
        request.route_only && not (bytes_beq (protocol result) (codes "fakedns")) in
      if should_override request result dest.address
      then (
        dest',
        if keeps_target
            then record targets { route_target = some dest' }
            else record targets { target = dest' },
      )
      else (dest, targets)

  -- The protocol is noted whenever there is a result.
  unfoldable pub apply_sniffed :
      SniffingRequest → Answer → Destination A → Targets A → Destination A × Targets A
  unfolding override protocol
  apply_sniffed request (found result) dest targets =
      override request result dest (record targets { content = some (protocol result) })
  apply_sniffed request _ dest targets = (dest, targets)
