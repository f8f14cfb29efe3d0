-- ===== src/Limiter/Devices.antt =====
-- The device limit over the calls of the limiter, and what a removal of a user does to connections
-- that are still open.
use xray_r4u.Base.{
  ℕ, ◌≤◌, ◌<◌, ◌^◌, ◌≡◌, true, false, Option, none, some, List, Bytes, ℤ, pos, bytes_eq, beq_self,
  arith, length,
}
use xray_r4u.GoMap.{lookup, lookup-insert_self}
use xray_r4u.Api
use xray_r4u.Limiter.Online.{refs-no_devices}
use xray_r4u.Limiter.Slots.{try_add_bounded}
use xray_r4u.Limiter.Registry.{
  Limiter, InboundInfo, UserInfo, admit, get_user_bucket, remove_online_ip,
  delete_users_from_limiter,
}
use xray_r4u.Limiter.Admission.{
  is_rejected, tracker_in, refs_at, get_user_bucket-refs, remove_online_ip-refs, admit-verdict,
}
use xray_r4u.Limiter.Users.{lists, delete_users_from_limiter_lem}
use xray_r4u.Limiter.Connections.{refs_of_entry}

module _ {B : Type 0} where
  abbrev pub inbound_devices : Bytes → Option (InboundInfo B) → ℕ
  inbound_devices email none = 0
  inbound_devices email (some info) = length (tracker_in email info).ips

  -- The addresses that a user of an inbound holds.
  abbrev pub devices : Bytes → Bytes → Limiter B → ℕ
  devices tag email l = inbound_devices email (lookup tag l)

  module _ (new_bucket : ℕ → ℤ → ℤ → Option B) where
    -- A registered user whose device limit is `n`, from 1 to 2^31 - 1, and who holds at most `n`
    -- addresses, holds at most `n` after any new connection.
    pub get_user_bucket_bounded :
        (l : Limiter B) (tag email ip : Bytes) (info : InboundInfo B) (user : UserInfo) (n : ℕ)
        → lookup tag l ≡ some info
        → lookup email info.user_info ≡ some user
        → user.device_limit ≡ pos n
        → 0 < n
        → n < 2 ^ 31
        → devices tag email l ≤ n
        → devices tag email (get_user_bucket new_bucket tag email ip l).1 ≤ n
    unfolding get_user_bucket
    get_user_bucket_bounded l tag email ip info user n e f limit p w h = ground (
      arith,
      admit-verdict new_bucket info email ip,
      try_add_bounded (tracker_in email info) ip user.uid n p w,
      lookup-insert_self tag (admit new_bucket info email ip).1 l,
    )

    removed_refs :
        (l : Limiter B) (tag email ip : Bytes) (us : List Api.UserInfo)
        → lists tag email us ≡ true
        → refs_at tag email ip (delete_users_from_limiter tag us l) ≡ 0
    removed_refs l tag email ip us listed = ground (
      arith,
      refs_of_entry tag email ip (delete_users_from_limiter tag us l),
      delete_users_from_limiter_lem l tag us tag email,
      beq_self tag,
      refs-no_devices ip,
    )

    -- After a user is removed, perhaps while a connection is open, an admitted later connection
    -- from the same address is counted once, and a release for the older one takes that count away:
    -- the address holds no slot although the later connection is still open.
    pub stale_close_frees_slot :
        (l : Limiter B) (tag email ip : Bytes) (us : List Api.UserInfo)
        → lists tag email us ≡ true
        → is_rejected
            (get_user_bucket new_bucket tag email ip (delete_users_from_limiter tag us l)).0
          ≡ false
        → let l' =
            (get_user_bucket new_bucket tag email ip (delete_users_from_limiter tag us l)).1 in
          (refs_at tag email ip l' ≡ 1)
          × (refs_at tag email ip (remove_online_ip tag email ip l') ≡ 0)
    stale_close_frees_slot l tag email ip us listed admitted =
        let l1 = delete_users_from_limiter tag us l in
        let l2 = (get_user_bucket new_bucket tag email ip l1).1 in
        ground (
          arith,
          removed_refs l tag email ip us listed,
          get_user_bucket-refs new_bucket l1 tag email ip tag email ip,
          remove_online_ip-refs l2 tag email ip tag email ip,
          beq_self tag,
          beq_self email,
          beq_self ip,
        )
