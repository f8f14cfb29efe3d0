-- ===== src/Dispatcher/Unhooked.antt =====
-- Connections that `trackConnection` of app/mydispatcher/default.go gives no hook: those without a
-- source address, and those whose tag has no online map. `getLink` and `DispatchLink` ask the limiter
-- for them all the same, and only a hook releases what the limiter counts.
use xray_r4u.Base.{ℕ, ◌+◌, ◌≡◌, refl, false, Option, none, some, ℤ, bytes_beq_iff, arith}
use xray_r4u.Text.{is_empty}
use xray_r4u.Limiter.Registry.{Limiter, Verdict, get_user_bucket}
use xray_r4u.Limiter.Admission.{LetsIn, refs_at, get_user_bucket-refs}
use xray_r4u.Dispatcher.Presence.{Presence}
use xray_r4u.Dispatcher.Link.{
  Session, Hook, Dispatcher, Opened, or_empty_text, source_ip, track_session, track_session-limiter,
  limit_user, open_link,
}

module _ (x : Presence) (B : Type 0) (new_bucket : ℕ → ℤ → ℤ → Option B) where
  open x use {State}

  limited_unhooked :
      (s : Session) (l : Limiter B) (hook : Option Hook) (d : Dispatcher x B)
      → hook ≡ none
      → d.limiter ≡ l
      → is_empty (or_empty_text s.user) ≡ false
      → LetsIn (get_user_bucket new_bucket s.tag (or_empty_text s.user) (source_ip s) l).0
      → let answer = get_user_bucket new_bucket s.tag (or_empty_text s.user) (source_ip s) l in
        limit_user x B new_bucket s hook d
        ≡ (Opened.admitted none answer.0, record d { limiter = answer.1 })
  unfolding limit_user
  limited_unhooked s l hook d e same named passes = rw (e, same, named, passes.0, passes.1) refl

  counted :
      (s : Session) (l : Limiter B)
      → LetsIn (get_user_bucket new_bucket s.tag (or_empty_text s.user) (source_ip s) l).0
      → refs_at s.tag
          (or_empty_text s.user)
          (source_ip s)
          (get_user_bucket new_bucket s.tag (or_empty_text s.user) (source_ip s) l).1
        ≡ refs_at s.tag (or_empty_text s.user) (source_ip s) l + 1
  counted s l passes =
      let email = or_empty_text s.user in
      let ip = source_ip s in
      ground (
        arith,
        get_user_bucket-refs new_bucket l s.tag email ip s.tag email ip,
        bytes_beq_iff s.tag s.tag,
        bytes_beq_iff email email,
        bytes_beq_iff ip ip,
      )

  -- A connection of a user with an email that trackConnection gives no hook and that the limiter lets
  -- in is admitted without a hook, and the limiter counts one connection more for the text of its
  -- source address, the empty text where it has none.
  pub unhooked_connection_counts :
      (s : Session) (d : Dispatcher x B)
      → (track_session x B s d).0 ≡ none
      → is_empty (or_empty_text s.user) ≡ false
      → LetsIn (get_user_bucket new_bucket s.tag (or_empty_text s.user) (source_ip s) d.limiter).0
      → let r = open_link x B new_bucket (some s) d in
        ((verdict : Verdict B) × (r.0 ≡ Opened.admitted none verdict))
        × (refs_at s.tag (or_empty_text s.user) (source_ip s) r.1.limiter
            ≡ refs_at s.tag (or_empty_text s.user) (source_ip s) d.limiter + 1)
  unfolding open_link
  unhooked_connection_counts s d no_hook named passes =
      let tracked = track_session x B s d in
      let answer =
        get_user_bucket new_bucket s.tag (or_empty_text s.user) (source_ip s) d.limiter in
      let e =
        limited_unhooked s d.limiter tracked.0 tracked.1 no_hook (track_session-limiter x B s d)
          named passes in
      rw e ((answer.0, refl), counted s d.limiter passes)
