-- ===== src/Dispatcher/Route.antt =====
-- `routedDispatch` of app/mydispatcher/default.go: the audit rules, then the choice of an outbound
-- handler. The handlers and the router are xray-core's, arguments here.
use xray_r4u.Base.{
  ◌≡◌, ◌≢◌, refl, ◌∙◌, Bool, true, false, Option, none, some, Bytes, if◌then◌else◌, arith, inl, inr,
  Bool-cases, Option-cases, ◌↔◌, ℤ, bytes_eq, sym,
}
use xray_r4u.GoMap.{lookup}
use xray_r4u.Text.{is_empty}
use xray_r4u.Rule.Manager.{RuleManager, detect}
use xray_r4u.Rule.Detection.{Forbids, detect_refuses}
use xray_r4u.Dispatcher.Link.{Session}

-- The outbound manager; `none` is a nil handler.
pub record Outbounds (H : Type 0) : Type 0 where
  pub get_handler : Bytes → Option H
  pub default_handler : Option H
  pub tag_of : H → Bytes

-- What the connection's context holds.
pub record Request : Type 0 where
  pub inbound : Option Session
  pub in_tag : Bytes
  pub forced_tag : Bytes
  -- Without a router `none`, where the router has no route `some none`.
  pub route : Option (Option Bytes)
  -- The detour of the access message, if there is a message.
  pub access : Option Bytes

module _ (H : Type 0) (outs : Outbounds H) where
  open outs use {get_handler, default_handler, tag_of}

  -- Both ends of the link are closed, or the handler has them, and the access message is recorded.
  pub data Routed : Type 0 where
    dropped : Routed
    handed : H → Option Bytes → Routed

  abbrev pub handler_of : Routed → Option H
  handler_of dropped = none
  handler_of (handed h detour) = some h

  -- A nil inbound and an inbound without a user pass.
  unfoldable pub forbidden :
      (Bytes → Bytes → Bool) → Option Session → Bytes → RuleManager → Bool × RuleManager
  forbidden matches none destination r = (false, r)
  forbidden matches (some s) destination r = elim s.user [
    | none ↦ (false, r)
    | some email ↦ detect matches s.tag destination email r
  ]

  abbrev pub or_else : Option H → Option H → Option H
  or_else none b = b
  or_else (some a) b = some a

  abbrev pub routed_handler : Option (Option Bytes) → Option H
  routed_handler none = none
  routed_handler (some none) = none
  routed_handler (some (some tag)) = get_handler tag

  -- A forced tag without a handler ends the dispatch; else the router's handler, the one named like
  -- the inbound, the default one.
  unfoldable pub pick_handler : Request → Option H
  pick_handler q =
      let fallback = or_else (get_handler q.in_tag) default_handler in
      if is_empty q.forced_tag
      then or_else (routed_handler q.route) fallback
      else get_handler q.forced_tag

  abbrev pub detour_after : H → Bytes → Bytes
  detour_after h old = if is_empty (tag_of h) then old else tag_of h

  unfoldable pub hand_over : Request → Option H → Routed
  hand_over q none = dropped
  hand_over q (some h) =
      handed h (elim q.access [ none ↦ none | some old ↦ some (detour_after h old) ])

  unfoldable pub routed_dispatch :
      (Bytes → Bytes → Bool) → Bytes → Request → RuleManager → Routed × RuleManager
  unfolding forbidden pick_handler hand_over
  routed_dispatch matches destination q r =
      let (refused, r') = forbidden matches q.inbound destination r in
      (if refused then dropped else hand_over q (pick_handler q), r')

  -- The rules of the inbound of a user's connection refuse a destination.
  abbrev pub IsForbidden : (Bytes → Bytes → Bool) → Option Session → Bytes → RuleManager → Type 0
  IsForbidden matches none destination r = ⊥
  IsForbidden matches (some s) destination r =
      (s.user ≢ none) × ((id : ℤ) × Forbids matches (lookup s.tag r.inbound_rule) destination id)

  -- Why a handler is the one.
  pub data Chosen (q : Request) (h : H) : Type 0 where
    by_force : is_empty q.forced_tag ≡ false → get_handler q.forced_tag ≡ some h → Chosen q h
    by_router :
        (tag : Bytes)
        → is_empty q.forced_tag ≡ true
        → q.route ≡ some (some tag)
        → get_handler tag ≡ some h
        → Chosen q h
    by_inbound :
        is_empty q.forced_tag ≡ true
        → routed_handler q.route ≡ none
        → get_handler q.in_tag ≡ some h
        → Chosen q h
    by_default :
        is_empty q.forced_tag ≡ true
        → routed_handler q.route ≡ none
        → get_handler q.in_tag ≡ none
        → default_handler ≡ some h
        → Chosen q h

  forbidden-IsForbidden :
      (matches : Bytes → Bytes → Bool) (i : Option Session) (destination : Bytes) (r : RuleManager)
      → ((forbidden matches i destination r).0 ≡ true) ↔ IsForbidden matches i destination r
  unfolding forbidden
  forbidden-IsForbidden matches none destination r = (λ e. absurd (ground arith), λ w. absurd w)
  forbidden-IsForbidden matches (some s) destination r = elim (Option-cases s.user) [
    | inl e ↦ rw e (λ w. absurd (ground arith), λ w. absurd (w.0 refl))
    | inr (email, e) ↦
        let both = detect_refuses matches r s.tag destination email in
        rw e (λ w. (λ nil. absurd (ground (arith, nil)), both.0 w), λ w. both.1 w.1)
  ]

  fallback-Chosen :
      (q : Request) (h : H)
      → is_empty q.forced_tag ≡ true
      → routed_handler q.route ≡ none
      → or_else (get_handler q.in_tag) default_handler ≡ some h
      → Chosen q h
  fallback-Chosen q h f none_routed e = elim (Option-cases (get_handler q.in_tag)) [
    | inl m ↦ by_default f none_routed m (rw m at e)
    | inr (h', m) ↦ by_inbound f none_routed (m ∙ rw m at e)
  ]

  routed-Chosen :
      (q : Request) (h : H)
      → is_empty q.forced_tag ≡ true
      → routed_handler q.route ≡ some h
      → Chosen q h
  routed-Chosen q h f e = elim (Option-cases q.route) [
    | inl m ↦ absurd (ground (arith, m))
    | inr (none, m) ↦ absurd (ground (arith, m))
    | inr (some tag, m) ↦ by_router tag f m (rw m at e)
  ]

  pick_handler-Chosen : (q : Request) (h : H) → pick_handler q ≡ some h → Chosen q h
  unfolding pick_handler
  pick_handler-Chosen q h e = elim (Bool-cases (is_empty q.forced_tag)) [
    | inr f ↦ by_force f (rw f at e)
    | inl f ↦ elim (Option-cases (routed_handler q.route)) [
      | inl m ↦ fallback-Chosen q h f m (rw (f, m) at e)
      | inr (h', m) ↦ routed-Chosen q h f (m ∙ rw (f, m) at e)
    ]
  ]

  Chosen-pick_handler : (q : Request) (h : H) → Chosen q h → pick_handler q ≡ some h
  unfolding pick_handler
  Chosen-pick_handler q h (by_force f e) = ground arith
  Chosen-pick_handler q h (by_router tag f e g) = rw (f, e, g) refl
  Chosen-pick_handler q h (by_inbound f e g) = rw (f, e, g) refl
  Chosen-pick_handler q h (by_default f e g d) = rw (f, e, g, d) refl

  hand_over-handler : (q : Request) (o : Option H) → handler_of (hand_over q o) ≡ o
  unfolding hand_over
  hand_over-handler q none = refl
  hand_over-handler q (some h) = refl

  -- A connection is handed to an outbound handler exactly if it is not a user's connection to a
  -- destination that the rules of its inbound refuse, and the handler is that of the forced tag, or
  -- without a forced tag the router's, or without that the one named like the inbound, or without
  -- that the default one.
  pub routed_dispatch-Chosen :
      (matches : Bytes → Bytes → Bool) (destination : Bytes) (q : Request) (r : RuleManager) (h : H)
      → (handler_of (routed_dispatch matches destination q r).0 ≡ some h)
        ↔ ((IsForbidden matches q.inbound destination r → ⊥) × Chosen q h)
  unfolding routed_dispatch
  routed_dispatch-Chosen matches destination q r h =
      let judged = forbidden-IsForbidden matches q.inbound destination r in
      let picked = hand_over-handler q (pick_handler q) in
      elim (Bool-cases (forbidden matches q.inbound destination r).0) [
        | inl m ↦ rw m (λ e. absurd (ground arith), λ w. absurd (w.0 (judged.0 m)))
        | inr m ↦ rw m (
          λ e. (
            λ bad. absurd (ground (arith, m, judged.1 bad)),
            pick_handler-Chosen q h (sym picked ∙ e),
          ),
          λ w. picked ∙ Chosen-pick_handler q h w.1,
        )
      ]
