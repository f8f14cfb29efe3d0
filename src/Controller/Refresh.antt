-- ===== src/Controller/Refresh.antt =====
-- What a new user list, or the panel's policy, does to the limiter: `nodeInfoMonitor` and
-- `applyIllegalKickUIDs` of service/controller/controller.go.
use xray_r4u.Base.{
  ◌≡◌, refl, Bool, true, false, Option, none, some, List, [], ◌∷◌, Bytes, bytes_eq, bytes_beq,
  bytes_beq_iff, ℤ, if◌then◌else◌, not, keep, All, codes, arith, inl, inr, Option-cases, Bool-cases,
}
use xray_r4u.Text.{equal_fold}
use xray_r4u.Api.{NodeInfo, UserInfo}
use xray_r4u.GoMap.{lookup, lookup-insert_self}
use xray_r4u.Limiter.Registry
use xray_r4u.Limiter.Registry.{
  Limiter, InboundInfo, key_of, limits_of, store_users, delete_keys, update_inbound_limiter,
  delete_users_from_limiter,
}
use xray_r4u.Limiter.Users.{
  lists, latest, Entry, entry_at, cleared, refreshed, update_inbound_limiter_lem,
  delete_users_from_limiter_lem,
}
use xray_r4u.Controller.Stream.{Config}
use xray_r4u.Controller.Core.{XrayCore}
use xray_r4u.Controller.Replace.{Controller}
use xray_r4u.Controller.Diff.{compare_user_list}
use xray_r4u.Controller.Sync.{
  no_users, refresh_limiter, purge_limiter, is_kicked, sync_anytls, sync_vless, sync_users,
  apply_illegal_kick_uids,
}

abbrev pub is_registered : {B : Type 0} → Bytes → Limiter B → Bool
is_registered tag l = elim (lookup tag l) [ none ↦ false | some _ ↦ true ]

latest-lists :
    (tag key : Bytes) (us : List UserInfo) (v w : Option Registry.UserInfo)
    → lists tag key us ≡ true
    → latest tag key us v ≡ latest tag key us w
latest-lists tag key [] v w h = absurd (ground arith)
latest-lists tag key (u ∷ us) v w h = elim (Bool-cases (bytes_beq (key_of tag u) key)) [
  | inl e ↦ rw (e, if◌then◌else◌) refl
  | inr e ↦ rw (e, if◌then◌else◌) (latest-lists tag key us v w (ground arith))
]

empty_lists : (tag key : Bytes) (us : List UserInfo) → no_users us ≡ true → lists tag key us ≡ false
empty_lists tag key [] h = refl
empty_lists tag key (u ∷ us) h = absurd (ground arith)

module _ {B : Type 0} where
  is_registered-refresh :
      (tag : Bytes) (us : List UserInfo) (l : Limiter B)
      → is_registered tag (refresh_limiter tag us l) ≡ is_registered tag l
  unfolding refresh_limiter update_inbound_limiter
  is_registered-refresh tag us l = elim (Option-cases (lookup tag l)) [
    | inl e ↦ ground arith
    | inr (info, e) ↦ ground (
      arith,
      lookup-insert_self tag
          (record info {
            user_info = store_users tag us info.user_info;
            bucket_hub = delete_keys tag us info.bucket_hub;
          })
          l,
    )
  ]

  entry_at-refresh :
      (tag key : Bytes) (us : List UserInfo) (l : Limiter B)
      → is_registered tag l ≡ true
      → entry_at tag key (refresh_limiter tag us l) ≡ refreshed tag key us (entry_at tag key l)
  unfolding refresh_limiter update_inbound_limiter
  entry_at-refresh tag key us l r = elim (Option-cases (update_inbound_limiter tag us l)) [
    | inl e ↦ absurd (ground arith)
    | inr (l', e) ↦
        ground (arith, bytes_beq_iff tag tag, update_inbound_limiter_lem l l' tag us e tag key)
  ]

  is_registered-purge :
      (tag : Bytes) (us : List UserInfo) (l : Limiter B)
      → is_registered tag (purge_limiter tag us l) ≡ is_registered tag l
  unfolding purge_limiter delete_users_from_limiter
  is_registered-purge tag us l = elim (Option-cases (lookup tag l)) [
    | inl e ↦ ground arith
    | inr (info, e) ↦ ground (
      arith,
      lookup-insert_self tag
          (record info {
            user_info = delete_keys tag us info.user_info;
            bucket_hub = delete_keys tag us info.bucket_hub;
            online_ips = delete_keys tag us info.online_ips;
          })
          l,
    )
  ]

  entry_at-purge :
      (tag key : Bytes) (us : List UserInfo) (l : Limiter B)
      → entry_at tag key (purge_limiter tag us l) ≡ cleared (lists tag key us) (entry_at tag key l)
  unfolding purge_limiter
  entry_at-purge tag key [] l = refl
  entry_at-purge tag key (u ∷ us) l =
      ground (arith, bytes_beq_iff tag tag, delete_users_from_limiter_lem l tag (u ∷ us) tag key)

module _ (x : XrayCore) (config : Config) where
  open x use {Inbound, Outbound}

  module _ (build_inbound : NodeInfo → Bytes → Option Inbound)
      (build_outbound : NodeInfo → Bytes → Option Outbound) (B : Type 0) where
    abbrev World : Type 0
    World = Controller x config build_inbound build_outbound B

    abbrev sync : NodeInfo → List UserInfo → World → World
    sync = sync_users x config build_inbound build_outbound B

    abbrev kick : List ℤ → World → World
    kick = apply_illegal_kick_uids x config build_inbound build_outbound B

    -- What the new list makes of a listed user's entry: its limits, no bucket, and the tracker of
    -- before unless the user's credentials changed.
    abbrev pub settled : Bytes → Bytes → List UserInfo → List UserInfo → Entry B → Entry B
    settled tag key deleted new entry =
        (latest tag key new none, none, (if lists tag key deleted then none else entry.2))

    sync_vless_entry :
        (info : NodeInfo) (new : List UserInfo) (c : World) (key : Bytes)
        → is_registered c.tag c.limiter ≡ true
        → lists c.tag key new ≡ true
        → entry_at c.tag key (sync_vless x config build_inbound build_outbound B info new c).limiter
          ≡ settled c.tag key
              (compare_user_list c.user_list new).0
              new
              (entry_at c.tag key c.limiter)
    unfolding sync_vless
    sync_vless_entry info [] c key r h = absurd (ground arith)
    sync_vless_entry info (u ∷ us) c key r h =
        let new = u ∷ us in
        let deleted = (compare_user_list c.user_list new).0 in
        let added = (compare_user_list c.user_list new).1 in
        let l1 = purge_limiter c.tag deleted c.limiter in
        let l2 = if no_users added then l1 else refresh_limiter c.tag added l1 in
        ground (
          arith,
          is_registered-purge c.tag deleted c.limiter,
          entry_at-purge c.tag key deleted c.limiter,
          is_registered-refresh c.tag added l1,
          entry_at-refresh c.tag key added l1,
          entry_at-refresh c.tag key new l2,
          latest-lists c.tag key new (entry_at c.tag key l2).0 none h,
        )

    sync_anytls_entry :
        (new : List UserInfo) (c : World) (key : Bytes)
        → is_registered c.tag c.limiter ≡ true
        → x.has_anytls_server c.tag c.core ≡ true
        → lists c.tag key new ≡ true
        → entry_at c.tag key (sync_anytls x config build_inbound build_outbound B new c).limiter
          ≡ settled c.tag key
              (compare_user_list c.user_list new).0
              new
              (entry_at c.tag key c.limiter)
    unfolding sync_anytls
    sync_anytls_entry new c key r server h =
        let deleted = (compare_user_list c.user_list new).0 in
        let l1 = purge_limiter c.tag deleted c.limiter in
        ground (
          arith,
          is_registered-purge c.tag deleted c.limiter,
          entry_at-purge c.tag key deleted c.limiter,
          entry_at-refresh c.tag key new l1,
          latest-lists c.tag key new (entry_at c.tag key l1).0 none h,
        )

    -- Where the limiter knows the node's tag, and an AnyTLS node has its server, each user of a new
    -- list has after the sync exactly the limits that the list gives last for its key and no rate
    -- bucket, and its connections stay counted unless the sync took it for a user that left or
    -- changed.
    pub sync_users_entry :
        (info : NodeInfo) (new : List UserInfo) (c : World) (key : Bytes)
        → is_registered c.tag c.limiter ≡ true
        → (equal_fold info.node_type (codes "anytls") ≡ true
            → x.has_anytls_server c.tag c.core ≡ true)
        → lists c.tag key new ≡ true
        → entry_at c.tag key (sync info new c).limiter
          ≡ settled c.tag key
              (compare_user_list c.user_list new).0
              new
              (entry_at c.tag key c.limiter)
    unfolding sync_users
    sync_users_entry info new c key r server h =
        elim (Bool-cases (equal_fold info.node_type (codes "anytls"))) [
          | inl e ↦ ground (arith, sync_anytls_entry new c key r (server e) h)
          | inr e ↦ ground (arith, sync_vless_entry info new c key r h)
        ]

    keep-All :
        (uids : List ℤ) (us : List UserInfo)
        → All (λ u. is_kicked uids u.uid ≡ false) (keep (λ u. not (is_kicked uids u.uid)) us)
    keep-All uids [] = tt
    keep-All uids (u ∷ us) = ground (arith, keep-All uids us)

    none_kicked :
        (uids : List ℤ) (us : List UserInfo)
        → no_users (keep (λ u. is_kicked uids u.uid) us) ≡ true
        → All (λ u. is_kicked uids u.uid ≡ false) us
    none_kicked uids [] h = tt
    none_kicked uids (u ∷ us) h = ground (arith, none_kicked uids us)

    -- After the policy is applied no user of the list has a uid that the policy names, and the
    -- limiter holds nothing under the keys of the users that were dropped.
    pub apply_illegal_kick_uids_lem :
        (uids : List ℤ) (c : World) (key : Bytes)
        → All (λ u. is_kicked uids u.uid ≡ false) (kick uids c).user_list
          × (entry_at c.tag key (kick uids c).limiter
              ≡ cleared
                  (lists c.tag key (keep (λ u. is_kicked uids u.uid) c.user_list))
                  (entry_at c.tag key c.limiter))
    unfolding apply_illegal_kick_uids
    apply_illegal_kick_uids_lem uids c key =
        let deleted = keep (λ u. is_kicked uids u.uid) c.user_list in
        ground (
          arith,
          keep-All uids c.user_list,
          none_kicked uids c.user_list,
          entry_at-purge c.tag key deleted c.limiter,
          bytes_beq_iff c.tag c.tag,
          delete_users_from_limiter_lem c.limiter c.tag deleted c.tag key,
          empty_lists c.tag key deleted,
        )
