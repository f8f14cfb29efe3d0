-- ===== src/Limiter/Prune.antt =====
-- `PruneStaleEntries` and the online report of common/limiter/limiter.go.
use xray_r4u.Base.{
  ◌≡◌, refl, true, Option, none, some, [], ◌∷◌, Bytes, bytes_eq, bytes_beq_iff, arith, inl, inr,
  Option-cases, ap, ◌∙◌,
}
use xray_r4u.GoMap.{Map, IsMap, lookup, lookup-insert, lookup-insert_self}
use xray_r4u.Limiter.Online.{OnlineState, copy_all, refs, refs-no_devices, no_devices}
use xray_r4u.Limiter.Registry.{
  Limiter, InboundInfo, tracker_or_new, is_idle, report, prune_trackers, prune_buckets,
  prune_stale_entries, get_online_device,
}
use xray_r4u.Limiter.Admission.{refs_at}

pub copy_all-nil : (s : OnlineState) → is_idle s ≡ true → s ≡ no_devices
unfolding copy_all
copy_all-nil s h = ground arith

idle-refs : (s : OnlineState) (ip : Bytes) → is_idle s ≡ true → refs ip s ≡ 0
idle-refs s ip h = ap (refs ip) (copy_all-nil s h) ∙ refs-no_devices ip

pub prune_trackers-none :
    (key : Bytes) (m : Map Bytes OnlineState)
    → lookup key m ≡ none
    → lookup key (prune_trackers m) ≡ none
unfolding lookup prune_trackers
prune_trackers-none key [] h = refl
prune_trackers-none key ((k, s) ∷ m) h = ground (arith, prune_trackers-none key m)

pub prune_trackers-IsMap : (m : Map Bytes OnlineState) → IsMap m → IsMap (prune_trackers m)
unfolding prune_trackers
prune_trackers-IsMap [] u = tt
prune_trackers-IsMap ((k, s) ∷ m) u =
    ground (arith, prune_trackers-none k m u.0, prune_trackers-IsMap m u.1)

pub prune_trackers-refs :
    (key ip : Bytes) (m : Map Bytes OnlineState)
    → IsMap m
    → refs ip (tracker_or_new (lookup key (prune_trackers m)))
      ≡ refs ip (tracker_or_new (lookup key m))
unfolding prune_trackers lookup
prune_trackers-refs key ip [] u = refl
prune_trackers-refs key ip ((k, s) ∷ m) u = ground (
  arith,
  bytes_beq_iff k key,
  prune_trackers-refs key ip m u.1,
  prune_trackers-none k m u.0,
  idle-refs s ip,
  refs-no_devices ip,
)

report-prune_trackers : (m : Map Bytes OnlineState) → report (prune_trackers m) ≡ report m
unfolding report prune_trackers copy_all
report-prune_trackers [] = refl
report-prune_trackers ((k, s) ∷ m) = ground (arith, report-prune_trackers m)

-- An inbound whose trackers are a map, as the calls of the limiter build it.
abbrev pub HasTrackers : {B : Type 0} → Option (InboundInfo B) → Type 0
HasTrackers none = Unit
HasTrackers (some info) = IsMap info.online_ips

module _ {B : Type 0} where
  prune_stale_entries-refs :
      (l : Limiter B) (tag at_tag at_email at_ip : Bytes)
      → HasTrackers (lookup tag l)
      → refs_at at_tag at_email at_ip (prune_stale_entries tag l) ≡ refs_at at_tag at_email at_ip l
  unfolding prune_stale_entries
  prune_stale_entries-refs l tag at_tag at_email at_ip u = elim (Option-cases (lookup tag l)) [
    | inl e ↦ ground arith
    | inr (info, e) ↦
        let info' : InboundInfo B = record info {
          bucket_hub = prune_buckets info.online_ips info.bucket_hub;
          online_ips = prune_trackers info.online_ips;
        } in
        ground (
          arith,
          bytes_beq_iff tag at_tag,
          lookup-insert tag at_tag info' l,
          prune_trackers-refs at_email at_ip info.online_ips,
        )
  ]

  -- Where the trackers of an inbound are a map, pruning it changes no count of any connection and
  -- leaves the online report as it was.
  pub prune_stale_entries_invisible :
      (l : Limiter B) (tag : Bytes)
      → HasTrackers (lookup tag l)
      → ((at_tag at_email at_ip : Bytes)
          → refs_at at_tag at_email at_ip (prune_stale_entries tag l)
            ≡ refs_at at_tag at_email at_ip l)
        × (get_online_device tag (prune_stale_entries tag l) ≡ get_online_device tag l)
  unfolding prune_stale_entries get_online_device
  prune_stale_entries_invisible l tag u = (
    λ at_tag at_email at_ip. prune_stale_entries-refs l tag at_tag at_email at_ip u,
    elim (Option-cases (lookup tag l)) [
      | inl e ↦ ground arith
      | inr (info, e) ↦
          let info' : InboundInfo B = record info {
            bucket_hub = prune_buckets info.online_ips info.bucket_hub;
            online_ips = prune_trackers info.online_ips;
          } in
          ground (arith, lookup-insert_self tag info' l, report-prune_trackers info.online_ips)
    ],
  )
