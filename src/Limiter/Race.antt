-- ===== src/Limiter/Race.antt =====
-- `GetUserBucket` of common/limiter/limiter.go in the two halves that a `PruneStaleEntries` can fall
-- between: the LoadOrStore, after which the call holds a pointer to the user's tracker, and the
-- tryAdd on that tracker with what follows. The two calls share no lock.
use xray_r4u.Base.{
  ℕ, ◌≡◌, refl, ap, ◌∙◌, true, false, Option, none, some, [], ◌∷◌, Bytes, ℤ, int32, bytes_eq,
  bytes_beq_iff, if◌then◌else◌, arith, inl, inr, Bool-cases,
}
use xray_r4u.GoMap.{Map, IsMap, lookup, insert, lookup-insert, lookup-insert_self, insert-IsMap}
use xray_r4u.Limiter.Online.{OnlineState, try_add, no_devices, is_full, refs-no_devices}
use xray_r4u.Limiter.Rate.{determine_rate}
use xray_r4u.Limiter.Registry.{
  Limiter, InboundInfo, Verdict, rejected, user_or_default, speed_verdict, admit, is_idle,
  prune_trackers, prune_buckets, get_user_bucket,
}
use xray_r4u.Limiter.Admission.{
  is_rejected, speed_verdict-admits, tracker_in, refs_at, inbound_refs, Refuses,
  get_user_bucket-Refuses,
}
use xray_r4u.Limiter.Prune.{prune_trackers-refs, prune_trackers-none, copy_all-nil}

prune_trackers-idle :
    (key : Bytes) (m : Map Bytes OnlineState) (s : OnlineState)
    → IsMap m
    → lookup key m ≡ some s
    → is_idle s ≡ true
    → lookup key (prune_trackers m) ≡ none
unfolding prune_trackers lookup
prune_trackers-idle key [] s u e h = refl
prune_trackers-idle key ((k, t) ∷ m) s u e h =
    ground
      (arith, bytes_beq_iff k key, prune_trackers-idle key m s u.1, prune_trackers-none k m u.0)

-- A fresh tracker takes any address.
no_devices-takes : (limit : ℤ) → is_full no_devices limit ≡ false
unfolding int32
no_devices-takes limit = ground arith

module _ {B : Type 0} where
  -- The LoadOrStore: the tracker of the user is stored afterwards.
  unfoldable pub with_tracker : Bytes → InboundInfo B → InboundInfo B
  with_tracker email info = record info {
    online_ips = insert email (tracker_in email info) info.online_ips;
  }

  -- PruneStaleEntries on one inbound.
  abbrev pub pruned : InboundInfo B → InboundInfo B
  pruned info = record info {
    bucket_hub = prune_buckets info.online_ips info.bucket_hub;
    online_ips = prune_trackers info.online_ips;
  }

  module _ (new_bucket : ℕ → ℤ → ℤ → Option B) where
    -- tryAdd on the tracker that the call holds when the map no longer has it, and what follows:
    -- nothing of the address is stored.
    unfoldable pub admit_orphan :
        OnlineState → InboundInfo B → Bytes → Bytes → Verdict B × InboundInfo B
    admit_orphan held info email ip =
        let user = user_or_default (lookup email info.user_info) in
        let (added, held') = try_add held ip user.uid user.device_limit in
        let rate = determine_rate info.node_speed_limit user.speed_limit in
        let (verdict, hub) = speed_verdict new_bucket rate email info.bucket_hub in
        if added then (verdict, record info { bucket_hub = hub }) else (rejected, info)

    -- The second half, on an inbound that was pruned: the tracker that the call holds is the stored
    -- one, if that is still there.
    unfoldable pub admit_held :
        OnlineState → InboundInfo B → Bytes → Bytes → Verdict B × InboundInfo B
    unfolding admit_orphan
    admit_held held info email ip = elim (lookup email info.online_ips) [
      | none ↦ admit_orphan held info email ip
      | some s ↦ admit new_bucket info email ip
    ]

    -- The whole call with a PruneStaleEntries between its halves.
    unfoldable pub get_user_bucket_pruned :
        Bytes → Bytes → Bytes → Limiter B → Verdict B × Limiter B
    unfolding with_tracker admit_held
    get_user_bucket_pruned tag email ip l = elim (lookup tag l) [
      | none ↦ (rejected, l)
      | some info ↦
          let held = tracker_in email info in
          let (verdict, info') = admit_held held (pruned (with_tracker email info)) email ip in
          (verdict, insert tag info' l)
    ]

    -- An empty orphan takes the address, and the stored trackers stay.
    orphan-admits :
        (held : OnlineState) (info : InboundInfo B) (email ip : Bytes)
        → held ≡ no_devices
        → lookup email info.online_ips ≡ none
        → let r = admit_held held info email ip in
          (is_rejected r.0 ≡ false) × (r.1.online_ips ≡ info.online_ips)
    unfolding admit_held try_add lookup
    orphan-admits held info email ip e gone =
        let user = user_or_default (lookup email info.user_info) in
        let rate = determine_rate info.node_speed_limit user.speed_limit in
        ground (
          arith,
          no_devices-takes user.device_limit,
          speed_verdict-admits new_bucket rate email info.bucket_hub,
        )

    next-Refuses :
        (info : InboundInfo B) (email ip : Bytes)
        → lookup email info.online_ips ≡ none
        → Refuses new_bucket (some info) email ip
        → ⊥
    next-Refuses info email ip gone r =
        let user = user_or_default (lookup email info.user_info) in
        ground (arith, gone, r.1, no_devices-takes user.device_limit)

    module _ (info : InboundInfo B) (email : Bytes) (trackers : IsMap info.online_ips)
        (idle : is_idle (tracker_in email info) ≡ true) where
      abbrev stored : InboundInfo B
      stored = with_tracker email info

      stored-pruned : lookup email (pruned stored).online_ips ≡ none
      unfolding with_tracker
      stored-pruned =
          prune_trackers-idle email (insert email (tracker_in email info) info.online_ips)
            (tracker_in email info)
            (insert-IsMap email (tracker_in email info) info.online_ips trackers)
            (lookup-insert_self email (tracker_in email info) info.online_ips) idle

      stored-refs :
          (who at : Bytes)
          → inbound_refs who at (some (pruned stored)) ≡ inbound_refs who at (some info)
      unfolding with_tracker
      stored-refs who at = ground (
        arith,
        prune_trackers-refs who at (insert email (tracker_in email info) info.online_ips)
            (insert-IsMap email (tracker_in email info) info.online_ips trackers),
        lookup-insert email who (tracker_in email info) info.online_ips,
        bytes_beq_iff email who,
      )

    pruned_runs :
        (l : Limiter B) (tag email ip : Bytes) (info : InboundInfo B)
        → lookup tag l ≡ some info
        → let r = admit_held (tracker_in email info) (pruned (with_tracker email info)) email ip in
          get_user_bucket_pruned tag email ip l ≡ (r.0, insert tag r.1 l)
    unfolding get_user_bucket_pruned
    pruned_runs l tag email ip info e = ground (arith, e)

    -- A connection of a user of whom no address is counted, on a registered inbound whose trackers are
    -- a map, with a PruneStaleEntries between the LoadOrStore and the tryAdd of its GetUserBucket: it
    -- is not rejected, and yet no address of the user is counted after it, so that whatever the
    -- user's device limit is, the next connection, from whatever address, is not rejected either.
    pub pruned_admission_unseen :
        (l : Limiter B) (tag email ip at next : Bytes) (info : InboundInfo B)
        → lookup tag l ≡ some info
        → IsMap info.online_ips
        → is_idle (tracker_in email info) ≡ true
        → let r = get_user_bucket_pruned tag email ip l in
          (is_rejected r.0 ≡ false)
          × ((refs_at tag email at r.1 ≡ 0)
              × (is_rejected (get_user_bucket new_bucket tag email next r.1).0 ≡ false))
    pruned_admission_unseen l tag email ip at next info e trackers idle =
        let held = tracker_in email info in
        let stored = with_tracker email info in
        let r = admit_held held (pruned stored) email ip in
        let gone = stored-pruned info email trackers idle in
        let let_in = orphan-admits held (pruned stored) email ip (copy_all-nil held idle) gone in
        let same : lookup email r.1.online_ips ≡ none = ap (lookup email) let_in.1 ∙ gone in
        let found = lookup-insert_self tag r.1 l in
        let after = get_user_bucket-Refuses new_bucket (insert tag r.1 l) tag email next in
        let free = next-Refuses r.1 email next same in
        rw (pruned_runs l tag email ip info e) (
          let_in.0,
          (
            rw (found, same) (refs-no_devices at),
            elim (Bool-cases
                (is_rejected (get_user_bucket new_bucket tag email next (insert tag r.1 l)).0)) [
                  | inl turn ↦ absurd (free (rw found at (after.0 turn)))
                  | inr pass ↦ pass
                ],
          ),
        )
