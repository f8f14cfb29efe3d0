-- ===== src/Limiter/Admission.antt =====
-- What `GetUserBucket` and `RemoveOnlineIP` do to the references that the connections of a user
-- hold, on every inbound at once.
use xray_r4u.Base.{
  ℕ, ◌+◌, ◌-◌, ◌≡◌, ◌≢◌, ◌↔◌, refl, Bool, true, false, Option, none, some, Bytes, ℤ, if◌then◌else◌,
  ◌&&◌, bytes_eq, bytes_beq, bytes_beq_iff, arith, inl, inr, Option-cases, Bool-cases,
}
use xray_r4u.GoMap.{Map, lookup, insert, lookup-insert, lookup-insert_self, lookup-insert_ne}
use xray_r4u.Limiter.Online.{OnlineState, is_full, try_add, remove, refs, refs-no_devices}
use xray_r4u.Limiter.Slots.{try_add-refs, remove-refs, bump}
use xray_r4u.Limiter.Rate.{determine_rate}
use xray_r4u.Limiter.Registry.{
  Limiter, InboundInfo, Verdict, rejected, panicked, user_or_default, tracker_or_new, bucket_for,
  speed_verdict, admit, get_user_bucket, remove_online_ip,
}

module _ {B : Type 0} where
  abbrev pub is_rejected : Verdict B → Bool
  is_rejected rejected = true
  is_rejected _ = false

  -- The bucket's constructor panics: no one recovers, and the process ends.
  abbrev pub is_panicked : Verdict B → Bool
  is_panicked panicked = true
  is_panicked _ = false

  -- What lets a connection in: the call neither rejects it nor panics.
  abbrev pub LetsIn : Verdict B → Type 0
  LetsIn v = (is_rejected v ≡ false) × (is_panicked v ≡ false)

  pub rejected-no_panic : (v : Verdict B) → is_rejected v ≡ true → is_panicked v ≡ false
  rejected-no_panic rejected e = refl
  rejected-no_panic Verdict.unlimited e = absurd (ground arith)
  rejected-no_panic panicked e = absurd (ground arith)
  rejected-no_panic (Verdict.limited b) e = absurd (ground arith)

  -- The tracker that a user of an inbound has; an empty one where none is stored.
  abbrev pub tracker_in : Bytes → InboundInfo B → OnlineState
  tracker_in email info = tracker_or_new (lookup email info.online_ips)

  abbrev pub inbound_refs : Bytes → Bytes → Option (InboundInfo B) → ℕ
  inbound_refs email ip none = 0
  inbound_refs email ip (some info) = refs ip (tracker_in email info)

  -- The connections that the limiter counts for an address of a user of an inbound.
  abbrev pub refs_at : Bytes → Bytes → Bytes → Limiter B → ℕ
  refs_at tag email ip l = inbound_refs email ip (lookup tag l)

  module _ (new_bucket : ℕ → ℤ → ℤ → Option B) where
    bucket_for-admits :
        (email : Bytes) (limit : ℕ) (hub : Map Bytes B)
        → is_rejected (bucket_for new_bucket email limit hub).0 ≡ false
    unfolding bucket_for
    bucket_for-admits email limit hub = ground arith

    pub speed_verdict-admits :
        (limit : ℕ) (email : Bytes) (hub : Map Bytes B)
        → is_rejected (speed_verdict new_bucket limit email hub).0 ≡ false
    unfolding speed_verdict
    speed_verdict-admits limit email hub = ground (arith, bucket_for-admits email limit hub)

    -- The call is refused by the tracker alone.
    pub admit-verdict :
        (info : InboundInfo B) (email ip : Bytes)
        → let user = user_or_default (lookup email info.user_info) in
          let answer = try_add (tracker_in email info) ip user.uid user.device_limit in
          (is_rejected (admit new_bucket info email ip).0 ≡ (if answer.0 then false else true))
          × (lookup email (admit new_bucket info email ip).1.online_ips ≡ some answer.1)
    unfolding admit
    admit-verdict info email ip =
        let user = user_or_default (lookup email info.user_info) in
        let answer = try_add (tracker_in email info) ip user.uid user.device_limit in
        ground (
          arith,
          speed_verdict-admits (determine_rate info.node_speed_limit user.speed_limit) email
              info.bucket_hub,
          lookup-insert_self email answer.1 info.online_ips,
        )

    admit-others :
        (info : InboundInfo B) (email other ip : Bytes)
        → email ≢ other
        → lookup other (admit new_bucket info email ip).1.online_ips ≡ lookup other info.online_ips
    unfolding admit
    admit-others info email other ip h =
        let user = user_or_default (lookup email info.user_info) in
        let answer = try_add (tracker_in email info) ip user.uid user.device_limit in
        ground (arith, lookup-insert_ne email other answer.1 info.online_ips h)

    admit-refs :
        (info : InboundInfo B) (email ip who at : Bytes)
        → inbound_refs who at (some (admit new_bucket info email ip).1)
          ≡ inbound_refs who at (some info)
            + (if is_rejected (admit new_bucket info email ip).0
                then 0
                else bump (bytes_beq email who && bytes_beq ip at))
    admit-refs info email ip who at = elim (Bool-cases (bytes_beq email who)) [
      | inl same ↦
          let user = user_or_default (lookup email info.user_info) in
          let answer = try_add (tracker_in email info) ip user.uid user.device_limit in
          ground (
            arith,
            (bytes_beq_iff email who).0 same,
            admit-verdict info email ip,
            try_add-refs (tracker_in email info) ip at user.uid user.device_limit,
          )
      | inr other ↦ ground (arith, bytes_beq_iff email who, admit-others info email who ip)
    ]

    -- An admission adds one reference, at its inbound, user and address; a refusal adds none.
    -- Nothing else that the limiter counts moves.
    pub get_user_bucket-refs :
        (l : Limiter B) (tag email ip at_tag at_email at_ip : Bytes)
        → let (verdict, l') = get_user_bucket new_bucket tag email ip l in
          refs_at at_tag at_email at_ip l'
          ≡ refs_at at_tag at_email at_ip l
            + (if is_rejected verdict
                then 0
                else bump
                    (bytes_beq tag at_tag && (bytes_beq email at_email && bytes_beq ip at_ip)))
    unfolding get_user_bucket
    get_user_bucket-refs l tag email ip at_tag at_email at_ip = elim (Option-cases (lookup tag l)) [
      | inl e ↦ ground arith
      | inr (info, e) ↦ ground (
        arith,
        bytes_beq_iff tag at_tag,
        admit-refs info email ip at_email at_ip,
        lookup-insert tag at_tag (admit new_bucket info email ip).1 l,
      )
    ]

  -- A release takes one reference away, at its inbound, user and address, if there is one.
  pub remove_online_ip-refs :
      (l : Limiter B) (tag email ip at_tag at_email at_ip : Bytes)
      → refs_at at_tag at_email at_ip (remove_online_ip tag email ip l)
        ≡ refs_at at_tag at_email at_ip l
          - bump (bytes_beq tag at_tag && (bytes_beq email at_email && bytes_beq ip at_ip))
  unfolding remove_online_ip
  remove_online_ip-refs l tag email ip at_tag at_email at_ip = elim (Option-cases (lookup tag l)) [
    | inl e ↦ ground (arith, bytes_beq_iff tag at_tag)
    | inr (info, e) ↦ elim (Option-cases (lookup email info.online_ips)) [
      | inl f ↦
          ground
            (arith, bytes_beq_iff tag at_tag, bytes_beq_iff email at_email, refs-no_devices at_ip)
      | inr (s, f) ↦
          let trackers = insert email (remove s ip) info.online_ips in
          ground (
            arith,
            bytes_beq_iff tag at_tag,
            bytes_beq_iff email at_email,
            lookup-insert email at_email (remove s ip) info.online_ips,
            lookup-insert tag at_tag (record info { online_ips = trackers }) l,
            remove-refs s ip at_ip,
          )
    ]
  ]

  module _ (new_bucket : ℕ → ℤ → ℤ → Option B) where
    -- The user's device limit and tracker as the call finds them.
    abbrev IsOver : InboundInfo B → Bytes → Bytes → Type 0
    IsOver info email ip =
        (lookup ip (tracker_in email info).ips ≡ none)
        × (is_full (tracker_in email info)
              (user_or_default (lookup email info.user_info)).device_limit
            ≡ true)

    -- What makes the limiter turn a connection away.
    abbrev pub Refuses : Option (InboundInfo B) → Bytes → Bytes → Type 0
    Refuses none email ip = Unit
    Refuses (some info) email ip = IsOver info email ip

    admit-refused :
        (info : InboundInfo B) (email ip : Bytes)
        → (is_rejected (admit new_bucket info email ip).0 ≡ true) ↔ IsOver info email ip
    unfolding try_add
    admit-refused info email ip = elim (Option-cases (lookup ip (tracker_in email info).ips)) [
      | inl e ↦ ground (arith, admit-verdict new_bucket info email ip)
      | inr (v, e) ↦ ground (arith, admit-verdict new_bucket info email ip)
    ]

    -- A connection is refused exactly if its inbound is not registered, or its address is new and
    -- the user's devices have reached the limit.
    pub get_user_bucket-Refuses :
        (l : Limiter B) (tag email ip : Bytes)
        → (is_rejected (get_user_bucket new_bucket tag email ip l).0 ≡ true)
          ↔ Refuses (lookup tag l) email ip
    unfolding get_user_bucket
    get_user_bucket-Refuses l tag email ip = elim (Option-cases (lookup tag l)) [
      | inl e ↦ rw (e, get_user_bucket) (λ _. tt, λ _. refl)
      | inr (info, e) ↦ rw (e, get_user_bucket) (admit-refused info email ip)
    ]
