-- ===== src/AnyTls/Setup.antt =====
-- Whom an AnyTLS inbound lets in, from its construction on (proxy/anytls/inbound.go, lib/service.go).
use xray_r4u.Base.{
  ℕ, ◌≡◌, ◌≢◌, refl, sym, ◌∙◌, Bool, true, Option, none, some, List, [], Bytes, bytes_eq, nat_beq,
  leb, length, take, arith, inl, inr, Bool-cases, Option-cases,
}
use xray_r4u.GoMap.{Map, lookup}
use xray_r4u.AnyTls.Fallback.{drop}
use xray_r4u.AnyTls.Service.{
  User, Service, Hello, fallback, accept, is_known, user_table, read_bytes, uint16, read_padding,
  read_size, read_hash, read_hello,
}
use xray_r4u.AnyTls.Revoke.{has_hash, update_users-known}
use xray_r4u.AnyTls.Server.{
  Config, Server, built, new_service, scheme_of, check_configured, handler_of, new_server,
  update_server_users,
}
use xray_r4u.AnyTls.Relay.{Network, session, serve, new_connection, process}

-- What the service read of a session: the name under its hash, which the packet begins with.
abbrev FromUsers : Map Bytes Bytes → Bytes → Hello → Type 0
FromUsers users packet (fallback q) = Unit {0}
FromUsers users packet (accept name hash rest) =
    (lookup hash users ≡ some name) × (read_bytes 32 packet ≡ some (hash, drop 32 packet))

read_padding-FromUsers :
    (users : Map Bytes Bytes) (packet name hash : Bytes) (size : ℕ) (b : Bytes)
    → lookup hash users ≡ some name
    → read_bytes 32 packet ≡ some (hash, drop 32 packet)
    → FromUsers users packet (read_padding packet name hash size b)
read_padding-FromUsers users packet name hash size b known begins =
    elim (Bool-cases (nat_beq size 0)) [
      | inl m ↦ rw m (known, begins)
      | inr m ↦ elim (Bool-cases (leb size (length b))) [
        | inl fits ↦ rw (m, fits) (known, begins)
        | inr short ↦ rw (m, short) tt
      ]
    ]

read_size-FromUsers :
    (users : Map Bytes Bytes) (packet name hash : Bytes) (o : Option (Bytes × Bytes))
    → lookup hash users ≡ some name
    → read_bytes 32 packet ≡ some (hash, drop 32 packet)
    → FromUsers users packet (read_size packet name hash o)
read_size-FromUsers users packet name hash none known begins = tt
read_size-FromUsers users packet name hash (some (by, rest)) known begins =
    read_padding-FromUsers users packet name hash (uint16 by) rest known begins

read_hello-FromUsers :
    (s : Service) (packet : Bytes) → FromUsers s.users packet (read_hello s packet)
unfolding read_hello
read_hello-FromUsers s packet = elim (Bool-cases (leb 32 (length packet))) [
  | inr short ↦ rw short tt
  | inl long ↦ elim (Option-cases (lookup (take 32 packet) s.users)) [
    | inl e ↦ rw (long, e, read_hash) tt
    | inr (name, e) ↦
        rw (long, e, read_hash)
          (read_size-FromUsers s.users packet name (take 32 packet) (read_bytes 2 (drop 32 packet))
            e (rw long refl))
  ]
]

serve-FromUsers :
    (net : Network) (handler : Option Bytes) (users : Map Bytes Bytes) (packet : Bytes)
    (hello : Hello) (name hash rest : Bytes)
    → FromUsers users packet hello
    → serve net handler true hello ≡ session name hash rest
    → FromUsers users packet (accept name hash rest)
serve-FromUsers net none users packet (fallback q) name hash rest h e = absurd (ground arith)
serve-FromUsers net (some addr) users packet (fallback q) name hash rest h e = absurd (ground arith)
serve-FromUsers net none users packet (accept n k r) name hash rest h e = ground arith
serve-FromUsers net (some addr) users packet (accept n k r) name hash rest h e = ground arith

process-FromUsers :
    (net : Network) (s : Server) (packet name hash rest : Bytes)
    → process net s packet ≡ session name hash rest
    → FromUsers s.service.users packet (accept name hash rest)
unfolding process new_connection
process-FromUsers net s packet name hash rest e =
    serve-FromUsers net s.fallback_handler s.service.users packet (read_hello s.service packet) name
      hash rest (read_hello-FromUsers s.service packet) e

known_of :
    (sha256 : Bytes → Bytes) (o : Option Bytes) (name : Bytes)
    → o ≡ some name
    → is_known sha256 o ≡ true
known_of sha256 none name e = cc
known_of sha256 (some n) name e = refl

module _ (default_padding_scheme : Bytes) (is_scheme : Bytes → Bool)
    (parse_ip : Bytes → Option Bytes) (sha256 : Bytes → Bytes) where
  -- A server that was built has a padding scheme that reads, no users, and as its fallback no address,
  -- or the configured one, which passed the check.
  record IsReady (c : Config) (s : Server) : Type 0 where
    no_users : s.service.users ≡ []
    padded : is_scheme s.padding ≡ true
    fallback_as_configured :
        s.fallback_handler ≡ handler_of default_padding_scheme is_scheme parse_ip c.fallback_addr
    fallback_passed :
        check_configured default_padding_scheme is_scheme parse_ip c.fallback_addr ≡ none

  new_server-IsReady :
      (c : Config) (s : Server)
      → new_server default_padding_scheme is_scheme parse_ip sha256 c ≡ built s
      → IsReady c s
  unfolding new_server new_service user_table
  new_server-IsReady c s e =
      elim (Option-cases
        (check_configured default_padding_scheme is_scheme parse_ip c.fallback_addr)) [
          | inr (err, m) ↦ absurd (ground (arith, m))
          | inl m ↦ elim (Bool-cases (is_scheme (scheme_of default_padding_scheme is_scheme c))) [
            | inr bad ↦ absurd (ground (arith, m, bad))
            | inl good ↦ ground (arith, m, good)
          ]
        ]

  -- A server that was built lets nobody in before its users are set.
  fresh_server_admits_nobody :
      (c : Config) (s : Server) (net : Network) (packet name hash rest : Bytes)
      → new_server default_padding_scheme is_scheme parse_ip sha256 c ≡ built s
      → process net s packet ≢ session name hash rest
  unfolding lookup
  fresh_server_admits_nobody c s net packet name hash rest e went =
      let known = (process-FromUsers net s packet name hash rest went).0 in
      let empty = (new_server-IsReady c s e).no_users in absurd (ground (arith, rw empty at known))

module _ (sha256 : Bytes → Bytes) where
  -- After its users were set to a list, an inbound starts a session only for a packet that begins with
  -- the hash of the password of a user of the list, and under the name that the table has for it.
  pub session_is_of_listed_user :
      (s : Server) (net : Network) (users : List User) (packet name hash rest : Bytes)
      → process net (update_server_users sha256 users s) packet ≡ session name hash rest
      → (has_hash sha256 hash users ≡ true)
        × ((lookup hash (update_server_users sha256 users s).service.users ≡ some name)
            × (read_bytes 32 packet ≡ some (hash, drop 32 packet)))
  unfolding update_server_users
  session_is_of_listed_user s net users packet name hash rest went =
      let updated = update_server_users sha256 users s in
      let (found, begins) = process-FromUsers net updated packet name hash rest went in
      let known = known_of sha256 (lookup hash updated.service.users) name found in
      (sym (update_users-known sha256 users s.service hash) ∙ known, (found, begins))
