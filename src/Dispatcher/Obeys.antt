-- ===== src/Dispatcher/Obeys.antt =====
-- What `Dispatch` and `DispatchLink` of app/mydispatcher/default.go let through to an outbound.
use xray_r4u.Base.{
  ℕ, ◌≡◌, ◌≢◌, ◌↔◌, refl, sym, ap, ◌∙◌, Bool, true, false, Option, none, some, List, [], Bytes, ℤ,
  arith, inl, inr, ◌⊎◌, Bool-cases, Option-cases,
}
use xray_r4u.Text.{is_empty}
use xray_r4u.Limiter.Registry.{Limiter, Verdict, get_user_bucket}
use xray_r4u.Limiter.Admission.{is_rejected, is_panicked, LetsIn}
use xray_r4u.Dispatcher.Presence.{Presence}
use xray_r4u.Dispatcher.Link.{
  Session, Hook, Dispatcher, Opened, or_empty_text, source_ip, track_session, track_session-limiter,
  limit_user, open_link,
}
use xray_r4u.Dispatcher.Route.{
  Outbounds, Routed, routed_dispatch, IsForbidden, Chosen, handler_of, routed_dispatch-Chosen,
}
use xray_r4u.Dispatcher.Cache.{Pipe, CachedReader, cache_payload}
use xray_r4u.Dispatcher.Sniff.{ProtocolSniffer, sniff_metadata}
use xray_r4u.Dispatcher.Sniffer.{sniffer, sniff_loop-EndsWithin}
use xray_r4u.Dispatcher.Override.{Destination, Targets}
use xray_r4u.Dispatcher.Dispatch.{
  Features, Connection, State, Outcome, sniff_target, sniffers_of, request_of, outcome_handler,
  dispatch,
}

returned : {A : Type 0} (o : Option A) → o ≢ none → (a : A) × (o ≡ some a)
returned none h = absurd (h refl)
returned (some a) h = (a, refl)

module _ (R : Type 0) (cache_look : R → Bytes × R) (cancelled : ℕ → Bool)
    (is_full : Bytes → Bool) where
  sniffer_returns :
      (metadata_only : Bool) (all : List ProtocolSniffer) (r : R)
      → sniffer R cache_look cancelled is_full metadata_only all r ≢ none
  unfolding sniffer
  sniffer_returns true all r e = ground arith
  sniffer_returns false all r e =
      let ends = sniff_loop-EndsWithin R cache_look cancelled is_full 0 (sniff_metadata all).1 r in
      ground (arith, ends.1.1.1)

module _ (x : Presence) (p : Pipe) (A : Type 0) (B : Type 0) (H : Type 0) (outs : Outbounds H) where
  abbrev Conn : Type 0
  Conn = Connection x p A B H outs

  sniff_target_returns : (f : Features A) (c : Conn) → sniff_target x p A B H outs f c ≢ none
  unfolding sniff_target
  sniff_target_returns f c e =
      let run = λ (r : CachedReader p). returned _ (
        sniffer_returns (CachedReader p) (cache_payload p f.size) c.cancelled f.is_full
          c.sniffing.metadata_only (sniffers_of x p A B H outs f c) r) in
      elim (Option-cases c.reader) [
        | inl n ↦ ground (arith, n)
        | inr (r, q) ↦ ground (arith, q, (run (record { reader = r; cache = [] })).1)
      ]

  abbrev pub handler_at : Option (Outcome x p A B H outs × State x p A B H outs) → Option H
  handler_at none = none
  handler_at (some (o, st)) = outcome_handler x p A B H outs o

  module _ (new_bucket : ℕ → ℤ → ℤ → Option B) where
    -- Every connection gets an outcome: sniffing it ends, whatever it brings and whatever the
    -- sniffers say.
    pub dispatch-Returns :
        (f : Features A) (c : Conn) (st : State x p A B H outs)
        → (out : Outcome x p A B H outs × State x p A B H outs) × (dispatch x p A B H outs
              new_bucket f c st
            ≡ some out)
    unfolding dispatch
    dispatch-Returns f c st =
        returned (dispatch x p A B H outs new_bucket f c st)
          (λ e. let sniffed = returned _ (sniff_target_returns f c) in ground (arith, sniffed.1))

    -- A session passes the limiter that has no user's email, or that the limiter lets in.
    abbrev pub IsAdmitted : Option Session → Dispatcher x B → Type 0
    IsAdmitted none d = Unit
    IsAdmitted (some s) d =
        (is_empty (or_empty_text s.user) ≡ true)
        ⊎ LetsIn (get_user_bucket new_bucket s.tag (or_empty_text s.user) (source_ip s) d.limiter).0

    abbrev is_in : Opened x B → Bool
    is_in Opened.refused = false
    is_in Opened.crashed = false
    is_in (Opened.admitted hook verdict) = true

    limit_user-in :
        (s : Session) (hook : Option Hook) (d : Dispatcher x B) (l : Limiter B)
        → d.limiter ≡ l
        → (is_in (limit_user x B new_bucket s hook d).0 ≡ true) ↔ (
            (is_empty (or_empty_text s.user) ≡ true)
            ⊎ LetsIn (get_user_bucket new_bucket s.tag (or_empty_text s.user) (source_ip s) l).0)
    unfolding limit_user
    limit_user-in s hook d l same = elim (Bool-cases (is_empty (or_empty_text s.user))) [
      | inl m ↦ rw (same, m) (λ _. inl refl, λ _. refl)
      | inr m ↦
          elim (Bool-cases (
            is_rejected
              (get_user_bucket new_bucket s.tag (or_empty_text s.user) (source_ip s) l).0)) [
                | inl turn ↦
                    rw (same, m, turn)
                      (
                        λ e. absurd (ground arith),
                        λ w. elim w [
                          | inl e ↦ absurd (ground arith)
                          | inr e ↦ absurd (ground (arith, e.0))
                        ],
                      )
                | inr pass ↦
                    elim (Bool-cases (
                      is_panicked
                        (get_user_bucket new_bucket s.tag (or_empty_text s.user) (source_ip s)
                          l).0)) [
                            | inl boom ↦
                                rw (same, m, pass, boom)
                                  (
                                    λ e. absurd (ground arith),
                                    λ w. elim w [
                                      | inl e ↦ absurd (ground arith)
                                      | inr e ↦ absurd (ground (arith, e.1))
                                    ],
                                  )
                            | inr runs ↦ rw (same, m, pass, runs) (λ _. inr (refl, refl), λ _. refl)
                          ]
              ]
    ]

    open_link-IsAdmitted :
        (session : Option Session) (d : Dispatcher x B)
        → (is_in (open_link x B new_bucket session d).0 ≡ true) ↔ IsAdmitted session d
    unfolding open_link
    open_link-IsAdmitted none d = (λ _. tt, λ _. refl)
    open_link-IsAdmitted (some s) d =
        let (hook, d') = track_session x B s d in
        limit_user-in s hook d' d.limiter (track_session-limiter x B s d)

    Opened-cases :
        (o : Opened x B)
        → ((o ≡ Opened.refused) ⊎ (o ≡ Opened.crashed))
          ⊎ ((hook : Option Hook) × ((verdict : Verdict B) × (o ≡ Opened.admitted hook verdict)))
    Opened-cases Opened.refused = inl (inl refl)
    Opened-cases Opened.crashed = inl (inr refl)
    Opened-cases (Opened.admitted hook verdict) = inr (hook, (verdict, refl))

    outcome_handler-routed :
        (r : Routed H outs)
        → outcome_handler x p A B H outs (Outcome.routed r) ≡ handler_of H outs r
    outcome_handler-routed Routed.dropped = refl
    outcome_handler-routed (Routed.handed h detour) = refl

    -- A connection reaches a handler exactly if its destination is valid, the limiter neither rejects
    -- its user nor panics, the rules do not refuse the destination that sniffing gave, and the handler
    -- is the one chosen for it.
    pub dispatch-Chosen :
        (f : Features A) (c : Conn) (st : State x p A B H outs) (dest : Destination A)
        (targets : Targets A) (h : H)
        → sniff_target x p A B H outs f c ≡ some (dest, targets)
        → let q = request_of x p A B H outs c targets in
          (handler_at (dispatch x p A B H outs new_bucket f c st) ≡ some h) ↔ (
            (f.is_valid c.destination ≡ true)
            × (IsAdmitted c.session st.disp
                × ((IsForbidden H outs f.matches c.session (f.show dest) st.rules → ⊥)
                    × Chosen H outs q h)))
    unfolding dispatch
    dispatch-Chosen f c st dest targets h sniffed =
        let q = request_of x p A B H outs c targets in
        let opened = (open_link x B new_bucket c.session st.disp).0 in
        let let_in = open_link-IsAdmitted c.session st.disp in
        let out = (routed_dispatch H outs f.matches (f.show dest) q st.rules).0 in
        let chosen = routed_dispatch-Chosen H outs f.matches (f.show dest) q st.rules h in
        let same = outcome_handler-routed out in
        elim (Bool-cases (f.is_valid c.destination)) [
          | inr bad ↦ rw bad (λ e. absurd (ground arith), λ w. absurd (ground (arith, w.0)))
          | inl good ↦ elim (Opened-cases opened) [
            | inl (inl turn) ↦
                rw (good, turn)
                  (
                    λ e. absurd (ground arith),
                    λ w. absurd (ground (arith, ap is_in turn, let_in.1 w.1.0)),
                  )
            | inl (inr boom) ↦
                rw (good, boom)
                  (
                    λ e. absurd (ground arith),
                    λ w. absurd (ground (arith, ap is_in boom, let_in.1 w.1.0)),
                  )
            | inr (hook, (verdict, pass)) ↦
                rw (good, pass, sniffed)
                  (
                    λ e.
                        let w = chosen.0 (sym same ∙ e) in
                        (refl, (let_in.0 (ap is_in pass), (w.0, w.1))),
                    λ w. same ∙ chosen.1 w.1.1,
                  )
          ]
        ]
