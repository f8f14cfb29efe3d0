-- ===== src/AnyTls/Sessions.antt =====
-- The life of the sessions of proxy/anytls/lib/service.go: `NewConnection` looks a hash up, later puts
-- its session in the table, and the session ends; the controller calls `UpdateUsers`.
use xray_r4u.Base.{
  ℕ, ◌≡◌, sym, ◌∙◌, true, Option, none, some, List, [], ◌∷◌, ◌++◌, Bytes, bytes_eq, nat_eq, arith,
  inl, inr, Bool-cases, All,
}
use xray_r4u.GoMap.{IsMap, lookup, lookup-insert, lookup-delete, insert-IsMap, delete-IsMap}
use xray_r4u.AnyTls.Service.{User, Service, is_known, update_users, track_session, end_session}
use xray_r4u.AnyTls.Revoke.{
  has_hash, keep_if_listed, update_users-sessions, update_users-IsMap, update_users-known,
}

-- The service, and the sessions that are authenticated and not yet in its table.
pub record World : Type 0 where
  pub service : Service
  pub pending : List (ℕ × Bytes)

module _ (sha256 : Bytes → Bytes) where
  abbrev pub IsKnown : Service → Bytes → Type 0
  IsKnown s hash = is_known sha256 (lookup hash s.users) ≡ true

  -- The users change only while no session waits for its entry.
  pub data Step (w : World) : World → Type 0 where
    authenticate :
        (sess : ℕ) (hash : Bytes)
        → IsKnown w.service hash
        → Step w (record w { pending = (sess, hash) ∷ w.pending })
    track :
        (xs ys : List (ℕ × Bytes)) (sess : ℕ) (hash : Bytes)
        → w.pending ≡ xs ++ (sess, hash) ∷ ys
        → Step w (record { service = track_session hash sess w.service; pending = xs ++ ys })
    finish : (sess : ℕ) → Step w (record w { service = end_session sess w.service })
    change :
        (users : List User)
        → w.pending ≡ []
        → Step w (record { service = update_users sha256 users w.service; pending = [] })

  pub data Reach (w : World) : World → Type 0 where
    here : Reach w w
    next : {u v : World} → Reach w u → Step u v → Reach w v

  abbrev AllKnown : Service → List (ℕ × Bytes) → Type 0
  AllKnown s ps = All (λ p. IsKnown s p.1) ps

  -- Each session, in the table or not yet, has the password of a current user.
  pub record IsCurrent (w : World) : Type 0 where
    pub keyed : IsMap w.service.sessions
    pub waiting : AllKnown w.service w.pending
    pub live :
        (sess : ℕ) (hash : Bytes)
        → lookup sess w.service.sessions ≡ some hash
        → IsKnown w.service hash

  All-split :
      (s : Service) (xs ys : List (ℕ × Bytes)) (p : ℕ × Bytes)
      → AllKnown s (xs ++ p ∷ ys)
      → IsKnown s p.1 × AllKnown s (xs ++ ys)
  All-split s [] ys p w = w
  All-split s (x ∷ xs) ys p w = let rest = All-split s xs ys p w.1 in (rest.0, (w.0, rest.1))

  listed :
      (users : List User) (o : Option Bytes) (hash : Bytes)
      → keep_if_listed sha256 users o ≡ some hash
      → has_hash sha256 hash users ≡ true
  listed users none hash e = absurd (ground arith)
  listed users (some other) hash e = elim (Bool-cases (has_hash sha256 other users)) [
    | inl m ↦ ground (arith, m, e)
    | inr m ↦ absurd (ground (arith, m, e))
  ]

  track-IsCurrent :
      (w : World) (xs ys : List (ℕ × Bytes)) (sess : ℕ) (hash : Bytes)
      → w.pending ≡ xs ++ (sess, hash) ∷ ys
      → IsCurrent w
      → IsCurrent (record { service = track_session hash sess w.service; pending = xs ++ ys })
  unfolding track_session
  track-IsCurrent w xs ys sess hash e h =
      let split = All-split w.service xs ys (sess, hash) (rw e at h.waiting) in
      record {
        keyed = insert-IsMap sess hash w.service.sessions h.keyed;
        waiting = split.1;
        live = λ other found q. ground (
          arith,
          split.0,
          lookup-insert sess other hash w.service.sessions,
          h.live other found,
          q,
        );
      }

  Step-IsCurrent : {w v : World} → Step w v → IsCurrent w → IsCurrent v
  unfolding end_session
  Step-IsCurrent {w} (authenticate sess hash known) h = record {
    keyed = h.keyed;
    waiting = (known, h.waiting);
    live = h.live;
  }
  Step-IsCurrent {w} (track xs ys sess hash e) h = track-IsCurrent w xs ys sess hash e h
  Step-IsCurrent {w} (finish sess) h = record {
    keyed = delete-IsMap sess w.service.sessions h.keyed;
    waiting = h.waiting;
    live = λ other hash e.
        ground (arith, h.live other hash, lookup-delete sess other w.service.sessions, e);
  }
  Step-IsCurrent {w} (change users idle) h = record {
    keyed = update_users-IsMap sha256 users w.service h.keyed;
    waiting = tt;
    live = λ sess hash e.
        update_users-known sha256 users w.service hash
        ∙ listed users (lookup sess w.service.sessions) hash
            (sym (update_users-sessions sha256 users w.service sess h.keyed) ∙ e);
  }

  -- As long as the users change only while no authenticated session waits for its entry, each live
  -- session has at all times the password of a current user, from any state where this is so.
  pub Reach-IsCurrent : {w v : World} → Reach w v → IsCurrent w → IsCurrent v
  Reach-IsCurrent here h = h
  Reach-IsCurrent (next r st) h = Step-IsCurrent st (Reach-IsCurrent r h)
