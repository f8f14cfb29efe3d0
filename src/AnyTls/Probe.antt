-- ===== src/AnyTls/Probe.antt =====
-- What a connection to an AnyTLS inbound comes to, by its first packet (proxy/anytls/inbound.go,
-- lib/service.go).
use xray_r4u.Base.{
  ℕ, ◌+◌, ◌≡◌, refl, ap, ◌∙◌, Bool, true, false, Option, none, some, List, [], ◌∷◌, ◌++◌, Bytes,
  bytes_eq, if◌then◌else◌, nat_beq, leb, length, arith, inl, inr, Bool-cases, Option-cases,
}
use xray_r4u.GoMap.{Map, lookup}
use mathlib.Core.List.{append-nil}
use mathlib.Core.Path.{subst}
use xray_r4u.AnyTls.Fallback.{FallbackError, resolve_and_check_fallback}
use xray_r4u.AnyTls.Service.{
  Hello, fallback, accept, read_bytes, uint16, read_padding, read_size, read_hash, read_hello,
}
use xray_r4u.AnyTls.Server.{Server}
use xray_r4u.AnyTls.Relay.{
  Event, dial, write_upstream, close_client, close_upstream, on_close, Network, relay, after_dial,
  after_check, fallback_connection, fell_back, serve, new_connection, process,
}

-- How often the client is closed, an upstream dialled with success and closed, the hook called.
abbrev pub client_closes : List Event → ℕ
client_closes [] = 0
client_closes (close_client ∷ es) = 1 + client_closes es
client_closes (_ ∷ es) = client_closes es

abbrev pub connects : List Event → ℕ
connects [] = 0
connects (dial addr true ∷ es) = 1 + connects es
connects (_ ∷ es) = connects es

abbrev pub upstream_closes : List Event → ℕ
upstream_closes [] = 0
upstream_closes (close_upstream ∷ es) = 1 + upstream_closes es
upstream_closes (_ ∷ es) = upstream_closes es

abbrev pub hook_calls : List Event → ℕ
hook_calls [] = 0
hook_calls (on_close fault ∷ es) = 1 + hook_calls es
hook_calls (_ ∷ es) = hook_calls es

-- What the upstream is sent.
abbrev pub sent : List Event → Bytes
sent [] = []
sent (write_upstream b ∷ es) = b ++ sent es
sent (_ ∷ es) = sent es

pub record IsTidy (has_hook : Bool) (es : List Event) : Type 0 where
  pub client_once : client_closes es ≡ 1
  pub upstream_closed : upstream_closes es ≡ connects es
  pub hook_once : hook_calls es ≡ (if has_hook then 1 else 0)

relay-IsTidy :
    (addr : Bytes) (is_tcp : Bool) (cached : Option Bytes) (has_hook : Bool)
    → IsTidy has_hook (dial addr true ∷ relay is_tcp cached has_hook)
unfolding relay
relay-IsTidy addr true none true = omega arith
relay-IsTidy addr true none false = omega arith
relay-IsTidy addr true (some b) true = omega arith
relay-IsTidy addr true (some b) false = omega arith
relay-IsTidy addr false none true = omega arith
relay-IsTidy addr false none false = omega arith
relay-IsTidy addr false (some b) true = omega arith
relay-IsTidy addr false (some b) false = omega arith

after_dial-IsTidy :
    (net : Network) (addr : Bytes) (cached : Option Bytes) (has_hook up : Bool)
    → IsTidy has_hook (after_dial net addr cached has_hook up)
after_dial-IsTidy net addr cached has_hook true = relay-IsTidy addr net.is_tcp cached has_hook
after_dial-IsTidy net addr cached true false = omega arith
after_dial-IsTidy net addr cached false false = omega arith

after_check-IsTidy :
    (net : Network) (addr : Bytes) (cached : Option Bytes) (has_hook : Bool)
    (checked : Option FallbackError)
    → IsTidy has_hook (after_check net addr cached has_hook checked)
after_check-IsTidy net addr cached has_hook none =
    after_dial-IsTidy net addr cached has_hook (net.dials addr)
after_check-IsTidy net addr cached true (some err) = omega arith
after_check-IsTidy net addr cached false (some err) = omega arith

relay-sent :
    (addr packet : Bytes) (is_tcp has_hook : Bool)
    → sent (dial addr true ∷ relay is_tcp (some packet) has_hook) ≡ packet
unfolding relay
relay-sent addr packet true true = append-nil packet
relay-sent addr packet true false = append-nil packet
relay-sent addr packet false true = append-nil packet
relay-sent addr packet false false = append-nil packet

relay-connects :
    (addr packet : Bytes) (is_tcp : Bool)
    → connects (dial addr true ∷ relay is_tcp (some packet) true) ≡ 1
unfolding relay
relay-connects addr packet true = refl
relay-connects addr packet false = refl

some_injective : {a b : Bytes} → some a ≡ some b → a ≡ b
some_injective e = cc

abbrev pub is_probe : Hello → Bool
is_probe (fallback packet) = true
is_probe (accept name hash rest) = false

-- What falls back is the packet that came.
abbrev IsWhole : Bytes → Hello → Type 0
IsWhole packet (fallback q) = q ≡ packet
IsWhole packet (accept name hash rest) = Unit {0}

read_padding-IsWhole :
    (packet user hash : Bytes) (size : ℕ) (b : Bytes)
    → IsWhole packet (read_padding packet user hash size b)
read_padding-IsWhole packet user hash size b = elim (Bool-cases (nat_beq size 0)) [
  | inl m ↦ rw m tt
  | inr m ↦ elim (Bool-cases (leb size (length b))) [
    | inl fits ↦ rw (m, fits) tt
    | inr short ↦ rw (m, short) refl
  ]
]

read_size-IsWhole :
    (packet user hash : Bytes) (o : Option (Bytes × Bytes))
    → IsWhole packet (read_size packet user hash o)
read_size-IsWhole packet user hash none = refl
read_size-IsWhole packet user hash (some (by, rest)) =
    read_padding-IsWhole packet user hash (uint16 by) rest

read_hash-IsWhole :
    (users : Map Bytes Bytes) (packet : Bytes) (o : Option (Bytes × Bytes))
    → IsWhole packet (read_hash users packet o)
read_hash-IsWhole users packet none = refl
read_hash-IsWhole users packet (some (hash, rest)) = elim (Option-cases (lookup hash users)) [
  | inl e ↦ rw (e, read_hash) refl
  | inr (user, e) ↦ rw (e, read_hash) (read_size-IsWhole packet user hash (read_bytes 2 rest))
]

serve-probe :
    (net : Network) (addr packet : Bytes) (handler : Option Bytes) (hello : Hello)
    → handler ≡ some addr
    → IsWhole packet hello
    → is_probe hello ≡ true
    → serve net handler true hello ≡ fell_back (fallback_connection net addr (some packet) true)
serve-probe net addr packet none hello e w probe = absurd (ground arith)
serve-probe net addr packet (some other) (fallback q) e w probe =
    ground (
      arith,
      w,
      ap (λ (a : Bytes). fallback_connection net a (some packet) true) (some_injective e),
    )
serve-probe net addr packet (some other) (accept name hash rest) e w probe = cc

serve-IsTidy :
    (net : Network) (handler : Option Bytes) (hello : Hello) (es : List Event)
    → serve net handler true hello ≡ fell_back es
    → IsTidy true es
unfolding fallback_connection
serve-IsTidy net none (fallback q) es e = absurd (ground arith)
serve-IsTidy net none (accept name hash rest) es e = absurd (ground arith)
serve-IsTidy net (some addr) (accept name hash rest) es e = absurd (ground arith)
serve-IsTidy net (some addr) (fallback q) es e =
    let made : fallback_connection net addr (some q) true ≡ es = cc in
    subst (λ (l : List Event). IsTidy true l) made
      (after_check-IsTidy net addr (some q) true
        (resolve_and_check_fallback net.parse_ip net.lookup_ip addr))

module _ (net : Network) (s : Server) where
  -- A connection without a user's hello, to an inbound with a fallback that passes the check and that
  -- answers: the fallback is sent just the packet that came, whole, and in the end both connections
  -- have been closed once and the hook was called once.
  pub probe_forwarded :
      (addr packet : Bytes)
      → s.fallback_handler ≡ some addr
      → resolve_and_check_fallback net.parse_ip net.lookup_ip addr ≡ none
      → net.dials addr ≡ true
      → is_probe (read_hello s.service packet) ≡ true
      → (es : List Event) × ((process net s packet ≡ fell_back es)
          × ((sent es ≡ packet) × ((connects es ≡ 1) × IsTidy true es)))
  unfolding process new_connection fallback_connection read_hello
  probe_forwarded addr packet handler checked up probe =
      let whole = read_hash-IsWhole s.service.users packet (read_bytes 32 packet) in
      let served =
        serve-probe net addr packet s.fallback_handler (read_hello s.service packet) handler whole
          probe in
      let es = dial addr true ∷ relay net.is_tcp (some packet) true in
      let went : fallback_connection net addr (some packet) true ≡ es = rw (checked, up) refl in
      (
        es,
        (
          served ∙ ap fell_back went,
          (
            relay-sent addr packet net.is_tcp true,
            (
              relay-connects addr packet net.is_tcp,
              relay-IsTidy addr net.is_tcp (some packet) true,
            ),
          ),
        ),
      )

  -- Whatever the fallback's check and the network say, a connection that falls back is closed once,
  -- each upstream connection that was made is closed, and the hook is called once.
  pub fell_back-IsTidy :
      (packet : Bytes) (es : List Event) → process net s packet ≡ fell_back es → IsTidy true es
  unfolding process new_connection fallback_connection
  fell_back-IsTidy packet es e =
      serve-IsTidy net s.fallback_handler (read_hello s.service packet) es e
