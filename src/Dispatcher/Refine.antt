-- ===== src/Dispatcher/Refine.antt =====
-- The dispatcher's connections as the limiter's: each event of app/mydispatcher/default.go is a run
-- of the steps of Limiter/Connections, and the online maps count the same connections.
use xray_r4u.Base.{
  ℕ, ◌≡◌, refl, sym, ap, ◌∙◌, Bool, true, false, Option, some, List, [], ◌∷◌, ◌++◌, Bytes, bytes_eq,
  ℤ, if◌then◌else◌, arith, inl, inr, Bool-cases, Option-cases,
}
use xray_r4u.GoMap.{lookup}
use xray_r4u.Text.{is_empty}
use xray_r4u.Api
use xray_r4u.Limiter.Registry.{
  Limiter, get_user_bucket, prune_stale_entries, update_inbound_limiter,
}
use xray_r4u.Limiter.Admission.{
  is_rejected, is_panicked, rejected-no_panic, refs_at, get_user_bucket-refs,
  get_user_bucket-Refuses,
}
use xray_r4u.Limiter.Connections
use xray_r4u.Limiter.Connections.{Conn, Reach, IsExact, after_connect, count_open, Reach-IsExact}
use xray_r4u.Dispatcher.Presence.{Presence}
use xray_r4u.Dispatcher.Link.{
  Session, Hook, Dispatcher, online_map_name, or_empty_text, track_connection, track_session,
  on_close, Opened, limit_user, open_link,
}

abbrev pub conn_of : Hook → Conn
conn_of h = record { tag = h.tag; email = h.email; ip = h.ip }

-- The connections that the limiter was asked for.
abbrev pub conns_of : List Hook → List Conn
conns_of [] = []
conns_of (h ∷ hs) = if is_empty h.email then conns_of hs else conn_of h ∷ conns_of hs

conns_of-append : (xs ys : List Hook) → conns_of (xs ++ ys) ≡ conns_of xs ++ conns_of ys
conns_of-append [] ys = refl
conns_of-append (h ∷ xs) ys = ground (arith, conns_of-append xs ys)

module _ (x : Presence) (B : Type 0) (new_bucket : ℕ → ℤ → ℤ → Option B) where
  open x use {State, online, get_or_register}

  -- The dispatcher with the hooks of the connections that are open.
  pub record World : Type 0 where
    pub disp : Dispatcher x B
    pub live : List Hook

  abbrev pub after_open : List Hook → Opened x B × Dispatcher x B → World
  after_open live (Opened.admitted (some h) verdict, d) = record { disp = d; live = h ∷ live }
  after_open live (_, d) = record { disp = d; live = live }

  abbrev pub is_crashed : Opened x B → Bool
  is_crashed Opened.crashed = true
  is_crashed _ = false

  -- A connection of a known source comes and does not end the process, under a tag that has an online map; one ends; the
  -- controller prunes and refreshes.
  pub data Step (w : World) : World → Type 0 where
    open_one :
        (s : Session) (ip : Bytes)
        → s.source ≡ some ip
        → (get_or_register (online_map_name s.tag) w.disp.presence).0 ≡ true
        → is_crashed (open_link x B new_bucket (some s) w.disp).0 ≡ false
        → Step w (after_open w.live (open_link x B new_bucket (some s) w.disp))
    close_one :
        (xs ys : List Hook) (h : Hook)
        → w.live ≡ xs ++ h ∷ ys
        → Step w (record { disp = on_close x B h w.disp; live = xs ++ ys })
    prune :
        (tag : Bytes)
        → Step w
            (record w { disp = record w.disp { limiter = prune_stale_entries tag w.disp.limiter } })
    refresh :
        (tag : Bytes) (us : List Api.UserInfo) (l : Limiter B)
        → update_inbound_limiter tag us w.disp.limiter ≡ some l
        → Step w (record w { disp = record w.disp { limiter = l } })

  abbrev pub limiter_view : World → Connections.World B
  limiter_view w = record { limiter = w.disp.limiter; open_conns = conns_of w.live }

  -- The limiter refuses only an address that holds nothing.
  refused_holds_nothing :
      (l : Limiter B) (tag email ip : Bytes)
      → is_rejected (get_user_bucket new_bucket tag email ip l).0 ≡ true
      → refs_at tag email ip l ≡ 0
  refused_holds_nothing l tag email ip h = elim (Option-cases (lookup tag l)) [
    | inl e ↦ ground arith
    | inr (info, e) ↦ ground (arith, get_user_bucket-Refuses new_bucket l tag email ip)
  ]

  asked_once :
      (w : World) (c : Conn)
      → let answer = get_user_bucket new_bucket c.tag c.email c.ip w.disp.limiter in
        is_panicked answer.0 ≡ false
        → Reach new_bucket (limiter_view w) (after_connect c (conns_of w.live) answer)
  asked_once w c calm = Reach.next Reach.here (Connections.Step.connect c calm)

  open-refines :
      (w : World) (s : Session) (ip : Bytes)
      → s.source ≡ some ip
      → (get_or_register (online_map_name s.tag) w.disp.presence).0 ≡ true
      → is_crashed (open_link x B new_bucket (some s) w.disp).0 ≡ false
      → Reach new_bucket
          (limiter_view w)
          (limiter_view (after_open w.live (open_link x B new_bucket (some s) w.disp)))
  unfolding open_link track_session track_connection limit_user on_close
  open-refines w s ip e ok runs =
      let email = or_empty_text s.user in
      let c : Conn = record { tag = s.tag; email = email; ip = ip } in
      let answer = get_user_bucket new_bucket s.tag email ip w.disp.limiter in
      elim (Bool-cases (is_empty email)) [
        | inl m ↦ rw (e, ok, m) (rw m Reach.here)
        | inr m ↦ elim (Bool-cases (is_rejected answer.0)) [
          | inl turn ↦
              let free : refs_at s.tag email ip answer.1 ≡ 0 = ground (
                arith,
                refused_holds_nothing w.disp.limiter s.tag email ip turn,
                get_user_bucket-refs new_bucket w.disp.limiter s.tag email ip s.tag email ip,
              ) in
              let calm = rejected-no_panic answer.0 turn in
              let turned : Reach new_bucket (limiter_view w)
                  (record { limiter = answer.1; open_conns = conns_of w.live }) =
                rw turn at (asked_once w c calm) in
              rw (e, ok, m, turn) (Reach.next turned (Connections.Step.release c free))
          | inr pass ↦ elim (Bool-cases (is_panicked answer.0)) [
            | inl boom ↦ absurd (ground (arith, rw (e, ok, m, pass, boom) at runs))
            | inr calm ↦ rw (e, ok, m, pass, calm) (rw m (rw pass at (asked_once w c calm)))
          ]
        ]
      ]

  close-refines :
      (w : World) (xs ys : List Hook) (h : Hook)
      → w.live ≡ xs ++ h ∷ ys
      → Reach new_bucket
          (limiter_view w)
          (limiter_view (record { disp = on_close x B h w.disp; live = xs ++ ys }))
  unfolding on_close
  close-refines w xs ys h e = elim (Bool-cases (is_empty h.email)) [
    | inl m ↦
        let same : conns_of w.live ≡ conns_of (xs ++ ys) =
          ap conns_of e ∙ conns_of-append xs (h ∷ ys) ∙ rw m (sym (conns_of-append xs ys)) in
        rw (m, ← same) Reach.here
    | inr m ↦
        let split : conns_of w.live ≡ conns_of xs ++ conn_of h ∷ conns_of ys =
          ap conns_of e ∙ conns_of-append xs (h ∷ ys) ∙ rw m refl in
        rw (m, conns_of-append xs ys)
          (Reach.next Reach.here
            (Connections.Step.disconnect (conns_of xs) (conns_of ys) (conn_of h) split))
  ]

  -- Each event of the dispatcher is a run of the limiter's steps, where an event is: a connection of a
  -- known source address comes under a tag that has an online map, and the limiter's call does not
  -- panic; a connection ends; the limiter is pruned; its users are refreshed. Each event runs to its
  -- end before the next begins.
  pub Step-refines : {w v : World} → Step w v → Reach new_bucket (limiter_view w) (limiter_view v)
  Step-refines {w} (open_one s ip e ok runs) = open-refines w s ip e ok runs
  Step-refines {w} (close_one xs ys h e) = close-refines w xs ys h e
  Step-refines {w} (prune tag) = Reach.next Reach.here (Connections.Step.prune tag)
  Step-refines {w} (refresh tag us l ok) =
      Reach.next Reach.here (Connections.Step.refresh tag us l ok)
