-- ===== src/Dispatcher/Sound.antt =====
-- What the dispatcher's two books hold over any history of connections: the online maps and the
-- limiter (app/mydispatcher/default.go, common/limiter/limiter.go).
use xray_r4u.Base.{
  ℕ, ◌+◌, ◌≡◌, ap, ◌∙◌, true, false, Option, some, List, [], ◌∷◌, ◌++◌, Bytes, bytes_beq,
  bytes_beq_iff, ℤ, if◌then◌else◌, ◌&&◌, arith, inl, inr, Bool-cases,
}
use xray_r4u.Text.{is_empty}
use xray_r4u.Limiter.Slots.{bump}
use xray_r4u.Limiter.Registry.{get_user_bucket}
use xray_r4u.Limiter.Admission.{is_rejected, is_panicked, refs_at}
use xray_r4u.Limiter.Connections
use xray_r4u.Limiter.Connections.{Conn, Reach-IsExact, IsExact}
use xray_r4u.Dispatcher.Presence.{Presence}
use xray_r4u.Dispatcher.Link.{
  Session, Hook, online_map_name, or_empty_text, track_connection, track_session, on_close,
  limit_user, open_link,
}
use xray_r4u.Dispatcher.Refine.{
  World, after_open, is_crashed, Step, conns_of, limiter_view, Step-refines,
}

-- The open connections of an address under the name of an online map.
abbrev pub count_live : Bytes → Bytes → List Hook → ℕ
count_live name ip [] = 0
count_live name ip (h ∷ hs) =
    count_live name ip hs + bump (bytes_beq (online_map_name h.tag) name && bytes_beq h.ip ip)

count_live-append :
    (name ip : Bytes) (xs ys : List Hook)
    → count_live name ip (xs ++ ys) ≡ count_live name ip xs + count_live name ip ys
count_live-append name ip [] ys = omega arith
count_live-append name ip (h ∷ xs) ys = omega (arith, count_live-append name ip xs ys)

module _ (x : Presence) (B : Type 0) (new_bucket : ℕ → ℤ → ℤ → Option B) where
  open x use {State, counts, online, get_or_register, add_ip}

  -- The online maps count the live connections of each address that they count at all.
  abbrev pub IsPresent : World x B new_bucket → Type 0
  IsPresent w =
      (name ip : Bytes)
      → online name ip w.disp.presence ≡ (if counts ip then count_live name ip w.live else 0)

  -- Both books are right.
  pub record IsSound (w : World x B new_bucket) : Type 0 where
    pub limited : IsExact new_bucket (limiter_view x B new_bucket w)
    pub present : IsPresent w

  abbrev tracked_presence : Session → Bytes → State → State
  tracked_presence s ip p =
      add_ip (online_map_name s.tag) ip (get_or_register (online_map_name s.tag) p).1

  open-IsPresent :
      (w : World x B new_bucket) (s : Session) (ip : Bytes)
      → s.source ≡ some ip
      → (get_or_register (online_map_name s.tag) w.disp.presence).0 ≡ true
      → is_crashed x B new_bucket (open_link x B new_bucket (some s) w.disp).0 ≡ false
      → IsPresent w
      → IsPresent (after_open x B new_bucket w.live (open_link x B new_bucket (some s) w.disp))
  unfolding open_link track_session track_connection limit_user on_close
  open-IsPresent w s ip e ok runs h name at_ip =
      let email = or_empty_text s.user in
      let tag_name = online_map_name s.tag in
      let answer = get_user_bucket new_bucket s.tag email ip w.disp.limiter in
      let reg = (get_or_register tag_name w.disp.presence).1 in
      let added = tracked_presence s ip w.disp.presence in
      let facts : (online name at_ip added
          ≡ online name at_ip w.disp.presence
            + bump (counts ip && (bytes_beq tag_name name && bytes_beq ip at_ip))) =
        x.online-add_ip tag_name ip name at_ip reg
        ∙ ap (λ n. n + bump (counts ip && (bytes_beq tag_name name && bytes_beq ip at_ip)))
            (x.online-get_or_register tag_name name at_ip w.disp.presence) in
      elim (Bool-cases (is_empty email)) [
        | inl m ↦ rw (e, ok, m) (ground (arith, facts, h name at_ip, bytes_beq_iff ip at_ip))
        | inr m ↦ elim (Bool-cases (is_rejected answer.0)) [
          | inl turn ↦
              rw (e, ok, m, turn)
                (ground (
                  arith,
                  facts,
                  h name at_ip,
                  bytes_beq_iff ip at_ip,
                  x.online-remove_ip tag_name ip name at_ip added,
                ))
          | inr pass ↦ elim (Bool-cases (is_panicked answer.0)) [
            | inl boom ↦ absurd (ground (arith, rw (e, ok, m, pass, boom) at runs))
            | inr calm ↦
                rw (e, ok, m, pass, calm)
                  (ground (arith, facts, h name at_ip, bytes_beq_iff ip at_ip))
          ]
        ]
      ]

  close-IsPresent :
      (w : World x B new_bucket) (xs ys : List Hook) (h : Hook)
      → w.live ≡ xs ++ h ∷ ys
      → IsPresent w
      → IsPresent (record { disp = on_close x B h w.disp; live = xs ++ ys })
  unfolding on_close
  close-IsPresent w xs ys h e present name at_ip =
      let tag_name = online_map_name h.tag in
      let before = count_live-append name at_ip xs (h ∷ ys) in
      let after = count_live-append name at_ip xs ys in
      let all = ap (count_live name at_ip) e in
      ground (
        arith,
        x.online-remove_ip tag_name h.ip name at_ip w.disp.presence,
        present name at_ip,
        before,
        after,
        all,
      )

  Step-IsPresent :
      {w v : World x B new_bucket} → IsPresent w → Step x B new_bucket w v → IsPresent v
  Step-IsPresent {w} h (Step.open_one s ip e ok runs) = open-IsPresent w s ip e ok runs h
  Step-IsPresent {w} h (Step.close_one xs ys c e) = close-IsPresent w xs ys c e h
  Step-IsPresent {w} h (Step.prune tag) = h
  Step-IsPresent {w} h (Step.refresh tag us l ok) = h

  -- Any number of events.
  pub data Run (w : World x B new_bucket) : World x B new_bucket → Type 0 where
    stay : Run w w
    more : {u v : World x B new_bucket} → Run w u → Step x B new_bucket u v → Run w v

  -- After any history of connections of known source addresses that come, under tags that have an
  -- online map, are turned away and end, of prunings and refreshes, the limiter's counts and the
  -- online maps are both exact, when they were at its start: each event runs to its end before the
  -- next begins, and none panics.
  pub Run-IsSound : {w v : World x B new_bucket} → Run w v → IsSound w → IsSound v
  Run-IsSound stay h = h
  Run-IsSound (more r s) h =
      let before = Run-IsSound r h in
      record {
        limited = Reach-IsExact new_bucket before.limited (Step-refines x B new_bucket s);
        present = Step-IsPresent before.present s;
      }

  -- Once every connection has ended, after a history of such events (known source addresses, online
  -- maps found, each event run to its end before the next, no panic) from sound books, no address
  -- holds anything of a user in the limiter and no online map counts one.
  pub quiet_Run-IsFree :
      {w v : World x B new_bucket}
      → Run w v
      → IsSound w
      → v.live ≡ []
      → (tag email name ip : Bytes)
      → (refs_at tag email ip v.disp.limiter ≡ 0) × (online name ip v.disp.presence ≡ 0)
  quiet_Run-IsFree {w} {v} r h e tag email name ip =
      let sound = Run-IsSound r h in
      (
        sound.limited.counted tag email ip
            ∙ ap (λ hs. Connections.count_open tag email ip (conns_of hs)) e,
        ground (arith, sound.present name ip, ap (count_live name ip) e),
      )
