-- ===== src/Limiter/Tracked.antt =====
-- The trackers of each inbound over the calls of common/limiter/limiter.go.
use xray_r4u.Base.{
  ℕ, ◌≡◌, Bool, true, false, Option, some, List, Bytes, ℤ, if◌then◌else◌, bytes_eq, arith, inl, inr,
  Option-cases,
}
use xray_r4u.GoMap.{IsMap, lookup, insert, lookup-insert, insert-IsMap}
use xray_r4u.Api
use xray_r4u.Limiter.Online.{try_add}
use xray_r4u.Limiter.Registry.{
  Limiter, InboundInfo, get_user_bucket, remove_online_ip, prune_stale_entries,
  update_inbound_limiter, admit, store_users, delete_keys, user_or_default,
}
use xray_r4u.Limiter.Admission.{tracker_in}
use xray_r4u.Limiter.Prune.{HasTrackers, prune_trackers-IsMap}

-- Trackers are maps, on every inbound.
abbrev pub AllTracked : {B : Type 0} → Limiter B → Type 0
AllTracked l = (tag : Bytes) → HasTrackers (lookup tag l)

module _ {B : Type 0} (new_bucket : ℕ → ℤ → ℤ → Option B) where
  if-HasTrackers :
      (b : Bool) (x y : Option (InboundInfo B))
      → HasTrackers x
      → HasTrackers y
      → HasTrackers (if b then x else y)
  if-HasTrackers true x y hx hy = hx
  if-HasTrackers false x y hx hy = hy

  insert-AllTracked :
      (tag : Bytes) (info : InboundInfo B) (l : Limiter B)
      → IsMap info.online_ips
      → AllTracked l
      → AllTracked (insert tag info l)
  insert-AllTracked tag info l m t at =
      rw (lookup-insert tag at info l) (if-HasTrackers _ (some info) (lookup at l) m (t at))

  registered-IsMap :
      (tag : Bytes) (info : InboundInfo B) (l : Limiter B)
      → lookup tag l ≡ some info
      → AllTracked l
      → IsMap info.online_ips
  registered-IsMap tag info l e t = rw e at (t tag)

  admit-IsMap :
      (info : InboundInfo B) (email ip : Bytes)
      → IsMap info.online_ips
      → IsMap (admit new_bucket info email ip).1.online_ips
  unfolding admit
  admit-IsMap info email ip m =
      let user = user_or_default (lookup email info.user_info) in
      let answer = try_add (tracker_in email info) ip user.uid user.device_limit in
      ground (arith, insert-IsMap email answer.1 info.online_ips m)

  pub get_user_bucket-AllTracked :
      (l : Limiter B) (tag email ip : Bytes)
      → AllTracked l
      → AllTracked (get_user_bucket new_bucket tag email ip l).1
  unfolding get_user_bucket
  get_user_bucket-AllTracked l tag email ip t = elim (Option-cases (lookup tag l)) [
    | inl e ↦ rw (e, get_user_bucket) t
    | inr (info, e) ↦
        rw (e, get_user_bucket)
          (insert-AllTracked tag _ l (admit-IsMap info email ip (registered-IsMap tag info l e t))
            t)
  ]

  pub remove_online_ip-AllTracked :
      (l : Limiter B) (tag email ip : Bytes)
      → AllTracked l
      → AllTracked (remove_online_ip tag email ip l)
  unfolding remove_online_ip
  remove_online_ip-AllTracked l tag email ip t = elim (Option-cases (lookup tag l)) [
    | inl e ↦ rw (e, remove_online_ip) t
    | inr (info, e) ↦ elim (Option-cases (lookup email info.online_ips)) [
      | inl f ↦ rw (e, remove_online_ip, f) t
      | inr (s, f) ↦
          rw (e, remove_online_ip, f)
            (insert-AllTracked tag _ l
              (insert-IsMap email _ info.online_ips (registered-IsMap tag info l e t)) t)
    ]
  ]

  pub prune_stale_entries-AllTracked :
      (l : Limiter B) (tag : Bytes) → AllTracked l → AllTracked (prune_stale_entries tag l)
  unfolding prune_stale_entries
  prune_stale_entries-AllTracked l tag t = elim (Option-cases (lookup tag l)) [
    | inl e ↦ rw (e, prune_stale_entries) t
    | inr (info, e) ↦
        rw (e, prune_stale_entries)
          (insert-AllTracked tag _ l
            (prune_trackers-IsMap info.online_ips (registered-IsMap tag info l e t)) t)
  ]

  pub update_inbound_limiter-AllTracked :
      (l l' : Limiter B) (tag : Bytes) (us : List Api.UserInfo)
      → update_inbound_limiter tag us l ≡ some l'
      → AllTracked l
      → AllTracked l'
  unfolding update_inbound_limiter
  update_inbound_limiter-AllTracked l l' tag us ok t = elim (Option-cases (lookup tag l)) [
    | inl e ↦ absurd (ground arith)
    | inr (info, e) ↦
        let info' : InboundInfo B = record info {
          user_info = store_users tag us info.user_info;
          bucket_hub = delete_keys tag us info.bucket_hub;
        } in
        let same : l' ≡ insert tag info' l = ground arith in
        rw same (insert-AllTracked tag info' l (registered-IsMap tag info l e t) t)
  ]
