-- ===== src/AnyTls/Relay.antt =====
-- The fallback of an AnyTLS inbound (`fallbackDialerHandler` of proxy/anytls/inbound.go, `fallback` of
-- lib/service.go): what it does to the two connections, in order. The network's answers are arguments.
use xray_r4u.Base.{Bool, true, false, Option, none, some, List, [], ◌∷◌, ◌++◌, Bytes, if◌then◌else◌}
use xray_r4u.AnyTls.Fallback.{FallbackError, resolve_and_check_fallback}
use xray_r4u.AnyTls.Service.{Hello, fallback, accept, read_hello}
use xray_r4u.AnyTls.Server.{Server}

pub data Event : Type 0 where
  -- To an address, and whether there was a connection.
  dial : Bytes → Bool → Event
  write_upstream : Bytes → Event
  close_write : Event
  copy_back : Event
  close_client : Event
  close_upstream : Event
  -- `onClose`, and whether with an error.
  on_close : Bool → Event

-- What the network answers to a fallback.
pub record Network : Type 0 where
  pub parse_ip : Bytes → Option Bytes
  pub lookup_ip : Bytes → Option (List Bytes)
  pub dials : Bytes → Bool
  -- Whether the upstream is a TCP connection.
  pub is_tcp : Bool

abbrev pub tell : Bool → Bool → List Event
tell has_hook fault = if has_hook then on_close fault ∷ [] else []

abbrev pub replay : Option Bytes → List Event
replay none = []
replay (some cached) = write_upstream cached ∷ []

-- The deferred calls stand last.
unfoldable pub relay : Bool → Option Bytes → Bool → List Event
relay is_tcp cached has_hook =
    replay cached
    ++ ((if is_tcp then close_write ∷ [] else [])
        ++ copy_back ∷ close_client ∷ close_upstream ∷ tell has_hook false)

abbrev pub after_dial : Network → Bytes → Option Bytes → Bool → Bool → List Event
after_dial net addr cached has_hook true = dial addr true ∷ relay net.is_tcp cached has_hook
after_dial net addr cached has_hook false = dial addr false ∷ close_client ∷ tell has_hook true

abbrev pub after_check : Network → Bytes → Option Bytes → Bool → Option FallbackError → List Event
after_check net addr cached has_hook (some err) = close_client ∷ tell has_hook true
after_check net addr cached has_hook none = after_dial net addr cached has_hook (net.dials addr)

-- `NewConnectionEx` of the fallback.
unfoldable pub fallback_connection : Network → Bytes → Option Bytes → Bool → List Event
unfolding relay resolve_and_check_fallback
fallback_connection net addr cached has_hook =
    after_check net addr cached has_hook
      (resolve_and_check_fallback net.parse_ip net.lookup_ip addr)

-- What a connection comes to. A session runs until it ends, and is then closed.
pub data Served : Type 0 where
  fallback_disabled : Served
  fell_back : List Event → Served
  session : Bytes → Bytes → Bytes → Served

abbrev pub serve : Network → Option Bytes → Bool → Hello → Served
serve net none has_hook (fallback packet) = fallback_disabled
serve net (some addr) has_hook (fallback packet) =
    fell_back (fallback_connection net addr (some packet) has_hook)
serve net handler has_hook (accept name hash rest) = session name hash rest

-- `NewConnection`, when the first read gave a packet.
unfoldable pub new_connection : Network → Server → Bool → Bytes → Served
unfolding fallback_connection read_hello
new_connection net s has_hook packet =
    serve net s.fallback_handler has_hook (read_hello s.service packet)

-- `Process`, which always has a hook.
unfoldable pub process : Network → Server → Bytes → Served
unfolding new_connection
process net s packet = new_connection net s true packet
