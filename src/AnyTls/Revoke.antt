-- ===== src/AnyTls/Revoke.antt =====
-- The sessions of proxy/anytls/lib/service.go against the user table, when users change.
use xray_r4u.Base.{
  ℕ, ◌≡◌, refl, ◌∙◌, Bool, false, Option, none, some, List, [], ◌∷◌, Bytes, bytes_beq, bytes_eq,
  nat_eq, nat_beq, nat_beq_iff, if◌then◌else◌, ◌||◌, not, arith, inl, inr, Option-cases,
}
use xray_r4u.GoMap.{
  Map, IsMap, lookup, insert, delete, lookup-insert, lookup-insert_self, lookup-delete, lookup-nil,
  insert-IsMap, delete-IsMap,
}
use xray_r4u.AnyTls.Service.{
  User, Service, is_known, user_table, to_close, close_all, kick_revoked_sessions, update_users,
  track_session,
}

module _ (sha256 : Bytes → Bytes) where
  -- A user of the list has a password with this hash.
  abbrev pub has_hash : Bytes → List User → Bool
  has_hash hash [] = false
  has_hash hash (user ∷ users) =
      let rest = has_hash hash users in bytes_beq (sha256 user.password) hash || rest

  user_table-known :
      (hash : Bytes) (users : List User) (u : Map Bytes Bytes)
      → is_known sha256 (lookup hash (user_table sha256 users u))
        ≡ (has_hash hash users || is_known sha256 (lookup hash u))
  unfolding user_table
  user_table-known hash [] u = refl
  user_table-known hash (user ∷ users) u =
      let inserted = insert (sha256 user.password) user.name u in
      ground (
        arith,
        user_table-known hash users inserted,
        lookup-insert (sha256 user.password) hash user.name u,
      )

  abbrev is_among : ℕ → List ℕ → Bool
  is_among sess [] = false
  is_among sess (other ∷ rest) = nat_beq other sess || is_among sess rest

  lookup-close_all :
      (sess : ℕ) (closed : List ℕ) (m : Map ℕ Bytes)
      → lookup sess (close_all sha256 closed m)
        ≡ (if is_among sess closed then none else lookup sess m)
  unfolding close_all
  lookup-close_all sess [] m = refl
  lookup-close_all sess (other ∷ rest) m =
      ground (arith, lookup-close_all sess rest (delete other m), lookup-delete other sess m)

  abbrev is_revoked : Map Bytes Bytes → Option Bytes → Bool
  is_revoked u none = false
  is_revoked u (some hash) = not (is_known sha256 (lookup hash u))

  absent_among :
      (u : Map Bytes Bytes) (sess : ℕ) (m : Map ℕ Bytes)
      → lookup sess m ≡ none
      → is_among sess (to_close sha256 u m) ≡ false
  unfolding to_close lookup
  absent_among u sess [] e = refl
  absent_among u sess ((other, hash) ∷ m) e = ground (arith, absent_among u sess m)

  among-to_close :
      (u : Map Bytes Bytes) (sess : ℕ) (m : Map ℕ Bytes)
      → IsMap m
      → is_among sess (to_close sha256 u m) ≡ is_revoked u (lookup sess m)
  unfolding to_close lookup
  among-to_close u sess [] w = refl
  among-to_close u sess ((other, hash) ∷ m) w =
      ground
        (arith, among-to_close u sess m w.1, absent_among u sess m, nat_beq_iff other sess, w.0)

  abbrev pub keep_if_listed : List User → Option Bytes → Option Bytes
  keep_if_listed users none = none
  keep_if_listed users (some hash) = if has_hash hash users then some hash else none

  -- After an update of the users a session is live exactly if it was live before and its password
  -- is that of a user of the new list, by the hash; the sessions are keyed once.
  pub update_users-sessions :
      (users : List User) (s : Service) (sess : ℕ)
      → IsMap s.sessions
      → lookup sess (update_users sha256 users s).sessions
        ≡ keep_if_listed users (lookup sess s.sessions)
  unfolding update_users kick_revoked_sessions
  update_users-sessions users s sess w =
      let u = user_table sha256 users [] in
      elim (Option-cases (lookup sess s.sessions)) [
        | inl e ↦ ground (arith, e, lookup-close_all sess (to_close sha256 u s.sessions) s.sessions)
        | inr (hash, e) ↦ ground (
          arith,
          e,
          lookup-close_all sess (to_close sha256 u s.sessions) s.sessions,
          among-to_close u sess s.sessions w,
          user_table-known hash users [],
          lookup-nil Bytes hash,
        )
      ]

  close_all-IsMap :
      (closed : List ℕ) (m : Map ℕ Bytes) → IsMap m → IsMap (close_all sha256 closed m)
  unfolding close_all
  close_all-IsMap [] m w = w
  close_all-IsMap (sess ∷ rest) m w = close_all-IsMap rest (delete sess m) (delete-IsMap sess m w)

  pub update_users-IsMap :
      (users : List User) (s : Service)
      → IsMap s.sessions
      → IsMap (update_users sha256 users s).sessions
  unfolding update_users kick_revoked_sessions
  update_users-IsMap users s w =
      close_all-IsMap (to_close sha256 (user_table sha256 users []) s.sessions) s.sessions w

  pub update_users-known :
      (users : List User) (s : Service) (hash : Bytes)
      → is_known sha256 (lookup hash (update_users sha256 users s).users) ≡ has_hash hash users
  unfolding update_users kick_revoked_sessions
  update_users-known users s hash =
      ground (arith, user_table-known hash users [], lookup-nil Bytes hash)

  -- A session whose first packet was read before an update that drops its user, and which is put in
  -- the table after it, stays live with a password that no user has; the next update of the users
  -- without that password ends it.
  pub late-track_session :
      (users next : List User) (s : Service) (sess : ℕ) (hash : Bytes)
      → IsMap s.sessions
      → has_hash hash users ≡ false
      → has_hash hash next ≡ false
      → let late = track_session hash sess (update_users sha256 users s) in
        (lookup sess late.sessions ≡ some hash)
        × ((is_known sha256 (lookup hash late.users) ≡ false)
            × (lookup sess (update_users sha256 next late).sessions ≡ none))
  unfolding track_session
  late-track_session users next s sess hash w gone still_gone =
      let updated = update_users sha256 users s in
      let late = track_session hash sess updated in
      let tracked = lookup-insert_self sess hash updated.sessions in
      (
        tracked,
        (
          update_users-known users s hash ∙ gone,
          update_users-sessions next late sess
                (insert-IsMap sess hash updated.sessions (update_users-IsMap users s w))
              ∙ rw (tracked, still_gone) refl,
        ),
      )
