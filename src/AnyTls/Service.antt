-- ===== src/AnyTls/Service.antt =====
-- proxy/anytls/lib/service.go: the users of an AnyTLS inbound and its live sessions. The hash of a
-- password and what a session does are arguments and steps; a session is named by a number.
use xray_r4u.Base.{
  ℕ, ◌+◌, ◌*◌, Bool, true, false, Option, none, some, List, [], ◌∷◌, Bytes, bytes_eq, nat_eq,
  nat_beq, if◌then◌else◌, leb, length, take,
}
use xray_r4u.GoMap.{Map, lookup, insert, delete}
use xray_r4u.AnyTls.Fallback.{drop, byte_at}

pub record User : Type 0 where
  pub name : Bytes
  pub password : Bytes

-- The users by the hash of their password, and the hash that each live session came with.
pub record Service : Type 0 where
  pub users : Map Bytes Bytes
  pub sessions : Map ℕ Bytes

module _ (sha256 : Bytes → Bytes) where
  unfoldable pub user_table : List User → Map Bytes Bytes → Map Bytes Bytes
  unfolding insert
  user_table [] u = u
  user_table (user ∷ users) u = user_table users (insert (sha256 user.password) user.name u)

  abbrev pub is_known : Option Bytes → Bool
  is_known none = false
  is_known (some name) = true

  -- The sessions whose hash is not authorized.
  unfoldable pub to_close : Map Bytes Bytes → Map ℕ Bytes → List ℕ
  unfolding lookup
  to_close authorized [] = []
  to_close authorized ((sess, hash) ∷ rest) =
      let others = to_close authorized rest in
      if is_known (lookup hash authorized) then others else sess ∷ others

  -- Each is closed, and its close hook takes it out of the table.
  unfoldable pub close_all : List ℕ → Map ℕ Bytes → Map ℕ Bytes
  unfolding delete
  close_all [] sessions = sessions
  close_all (sess ∷ rest) sessions = close_all rest (delete sess sessions)

  unfoldable pub kick_revoked_sessions : Map Bytes Bytes → Service → Service
  unfolding to_close close_all
  kick_revoked_sessions authorized s = record s {
    sessions = close_all (to_close authorized s.sessions) s.sessions;
  }

  unfoldable pub update_users : List User → Service → Service
  unfolding user_table kick_revoked_sessions
  update_users users s =
      let u = user_table users [] in kick_revoked_sessions u (record s { users = u })

unfoldable pub track_session : Bytes → ℕ → Service → Service
unfolding insert
track_session hash sess s = record s { sessions = insert sess hash s.sessions }

-- The close hook that `trackSession` sets.
unfoldable pub end_session : ℕ → Service → Service
unfolding delete
end_session sess s = record s { sessions = delete sess s.sessions }

-- What the first packet of a connection makes of it: it goes to the fallback, which reads all of the
-- packet again, or it is a user's, whose session reads on behind the padding.
pub data Hello : Type 0 where
  fallback : Bytes → Hello
  accept : Bytes → Bytes → Bytes → Hello

-- `ReadBytes`; `none` is its error on a packet that is too short.
abbrev pub read_bytes : ℕ → Bytes → Option (Bytes × Bytes)
read_bytes n b = if leb n (length b) then some (take n b, drop n b) else none

-- `binary.BigEndian.Uint16`
abbrev pub uint16 : Bytes → ℕ
uint16 b = byte_at 0 b * 256 + byte_at 1 b

abbrev pub read_padding : Bytes → Bytes → Bytes → ℕ → Bytes → Hello
read_padding packet user hash size b =
    if nat_beq size 0 then accept user hash b else elim (read_bytes size b) [
      | none ↦ fallback packet
      | some (padding, rest) ↦ accept user hash rest
    ]

abbrev pub read_size : Bytes → Bytes → Bytes → Option (Bytes × Bytes) → Hello
read_size packet user hash none = fallback packet
read_size packet user hash (some (by, rest)) = read_padding packet user hash (uint16 by) rest

abbrev pub read_hash : Map Bytes Bytes → Bytes → Option (Bytes × Bytes) → Hello
read_hash users packet none = fallback packet
read_hash users packet (some (hash, rest)) = elim (lookup hash users) [
  | none ↦ fallback packet
  | some user ↦ read_size packet user hash (read_bytes 2 rest)
]

-- `NewConnection` up to the session.
unfoldable pub read_hello : Service → Bytes → Hello
unfolding lookup
read_hello s packet = read_hash s.users packet (read_bytes 32 packet)
