-- ===== src/Dispatcher/Link.antt =====
-- The admission of a connection by app/mydispatcher/default.go: `trackConnection`, the close hook of
-- `connTrackWriter`, and what `getLink` and `DispatchLink` do before they sniff and route. Both run
-- the same steps; they differ in the ends of the link that they wrap.
use xray_r4u.Base.{
  ℕ, ◌≡◌, refl, Option, none, some, [], ◌++◌, Bytes, ℤ, if◌then◌else◌, codes, arith, inl, inr,
  Option-cases,
}
use xray_r4u.Text.{is_empty}
use xray_r4u.Limiter.Registry.{Limiter, Verdict, get_user_bucket, remove_online_ip}
use xray_r4u.Limiter.Admission.{is_rejected, is_panicked}
use xray_r4u.Dispatcher.Presence.{Presence}

-- What the dispatcher reads of a connection's inbound session: the tag, the text of the source
-- address, and the user's email; `none` is a nil pointer.
pub record Session : Type 0 where
  pub tag : Bytes
  pub source : Option Bytes
  pub user : Option Bytes

unfoldable pub online_map_name : Bytes → Bytes
online_map_name tag = codes "inbound>>>" ++ (tag ++ codes ">>>online>>>ip")

-- A nil user and a user without an email.
abbrev pub or_empty_text : Option Bytes → Bytes
or_empty_text none = []
or_empty_text (some t) = t

abbrev pub source_ip : Session → Bytes
source_ip s = or_empty_text s.source

-- What a connection's close hook has kept.
pub record Hook : Type 0 where
  pub tag : Bytes
  pub ip : Bytes
  pub email : Bytes

module _ (x : Presence) (B : Type 0) where
  open x use {State, get_or_register, add_ip, remove_ip}

  -- What the dispatcher keeps of connections.
  pub record Dispatcher : Type 0 where
    pub presence : State
    pub limiter : Limiter B

  -- Without an online map the link gets no hook.
  unfoldable pub track_connection : Bytes → Bytes → Bytes → Dispatcher → Option Hook × Dispatcher
  unfolding online_map_name
  track_connection tag ip email d =
      let name = online_map_name tag in
      let (found, p) = get_or_register name d.presence in
      if found
      then (
        some (record { tag = tag; ip = ip; email = email }),
        record d { presence = add_ip name ip p },
      )
      else (none, record d { presence = p })

  -- The hook runs once, at the first Close or Interrupt.
  unfoldable pub on_close : Hook → Dispatcher → Dispatcher
  unfolding online_map_name
  on_close h d = record {
    presence = remove_ip (online_map_name h.tag) h.ip d.presence;
    limiter = if is_empty h.email then d.limiter else remove_online_ip h.tag h.email h.ip d.limiter;
  }

  abbrev pub run_hook : Option Hook → Dispatcher → Dispatcher
  run_hook none d = d
  run_hook (some h) d = on_close h d

  -- A connection without a source address is not tracked.
  unfoldable pub track_session : Session → Dispatcher → Option Hook × Dispatcher
  unfolding track_connection
  track_session s d = elim s.source [
    | none ↦ (none, d)
    | some ip ↦ track_connection s.tag ip (or_empty_text s.user) d
  ]

  pub track_session-limiter :
      (s : Session) (d : Dispatcher) → (track_session s d).1.limiter ≡ d.limiter
  unfolding track_session track_connection
  track_session-limiter s d = elim (Option-cases s.source) [
    | inl n ↦ rw n refl
    | inr (ip, q) ↦ rw q (ground arith)
  ]

  -- A connection that is turned away is closed, and nothing of it goes on; one whose call of the
  -- limiter panics takes the process with it, and no hook runs; one that is let in has
  -- its hook and the limiter's answer, `unlimited` where the limiter was not asked.
  pub data Opened : Type 0 where
    refused crashed : Opened
    admitted : Option Hook → Verdict B → Opened

  module _ (new_bucket : ℕ → ℤ → ℤ → Option B) where
    unfoldable pub limit_user : Session → Option Hook → Dispatcher → Opened × Dispatcher
    unfolding on_close
    limit_user s hook d =
        let email = or_empty_text s.user in
        let (verdict, l) = get_user_bucket new_bucket s.tag email (source_ip s) d.limiter in
        let asked : Dispatcher = record d { limiter = l } in
        if is_empty email
        then (admitted hook Verdict.unlimited, d)
        else if is_rejected verdict
        then (refused, run_hook hook asked)
        else if is_panicked verdict
        then (crashed, asked)
        else (admitted hook verdict, asked)

    -- No session at all: an internal dispatch.
    unfoldable pub open_link : Option Session → Dispatcher → Opened × Dispatcher
    unfolding track_session limit_user
    open_link none d = (admitted none Verdict.unlimited, d)
    open_link (some s) d = let (hook, d') = track_session s d in limit_user s hook d'
