-- ===== src/Limiter/Registry.antt =====
-- The registry of inbounds (`Limiter` and `InboundInfo` of common/limiter/limiter.go). Each call is
-- one function, as it runs alone; Race has a call that another falls into. The token buckets are
-- those of github.com/juju/ratelimit: their type `B` and their constructor, `none` where it panics,
-- are arguments.
use xray_r4u.Base.{
  ℕ, Bool, true, false, Option, none, some, List, [], ◌∷◌, ◌++◌, Bytes, ℤ, pos, int32,
  if◌then◌else◌, nat_beq, bytes_eq,
}
use xray_r4u.Text.{show_int}
use xray_r4u.GoMap.{Map, lookup, insert, delete}
use xray_r4u.Api
use xray_r4u.Api.{OnlineUser}
use xray_r4u.Limiter.Online.{OnlineState, try_add, remove, copy_all, no_devices}
use xray_r4u.Limiter.Rate.{determine_rate, tenth}

pub record UserInfo : Type 0 where
  pub uid : ℤ
  pub speed_limit : ℕ
  pub device_limit : ℤ

pub record InboundInfo (B : Type 0) : Type 0 where
  pub tag : Bytes
  pub node_speed_limit : ℕ
  pub user_info : Map Bytes UserInfo
  pub bucket_hub : Map Bytes B
  pub online_ips : Map Bytes OnlineState

abbrev pub Limiter : Type 0 → Type 0
Limiter B = Map Bytes (InboundInfo B)

-- "tag|email|uid"
unfoldable pub email_key : Bytes → Bytes → ℤ → Bytes
email_key tag email uid = tag ++ (b'|' ∷ (email ++ (b'|' ∷ show_int uid)))

-- The limits of a panel user; the device limit is narrowed to 32 bits.
abbrev pub limits_of : Api.UserInfo → UserInfo
limits_of u = record {
  uid = u.uid;
  speed_limit = u.speed_limit;
  device_limit = int32 u.device_limit;
}

abbrev pub key_of : Bytes → Api.UserInfo → Bytes
key_of tag u = email_key tag u.email u.uid

unfoldable pub store_users : Bytes → List Api.UserInfo → Map Bytes UserInfo → Map Bytes UserInfo
store_users tag [] m = m
store_users tag (u ∷ us) m = store_users tag us (insert (key_of tag u) (limits_of u) m)

-- The keys of some users leave a map.
unfoldable pub delete_keys {ℓ} :
    {V : Type ℓ} → Bytes → List Api.UserInfo → Map Bytes V → Map Bytes V
delete_keys tag [] m = m
delete_keys tag (u ∷ us) m = delete_keys tag us (delete (key_of tag u) m)

-- One address of each tracker's snapshot, with the uid that its entry names.
abbrev to_online : Map Bytes ℤ → List OnlineUser
to_online [] = []
to_online ((ip, uid) ∷ m) = record { uid = uid; ip = ip } ∷ to_online m

unfoldable pub report : Map Bytes OnlineState → List OnlineUser
report [] = []
report ((key, s) ∷ m) = to_online (copy_all s) ++ report m

abbrev pub is_idle : OnlineState → Bool
is_idle s = elim (copy_all s) [ [] ↦ true | _ ∷ _ ↦ false ]

abbrev is_live : Option OnlineState → Bool
is_live none = true
is_live (some s) = if is_idle s then false else true

-- The trackers that hold no address go, with the buckets of their users.
unfoldable pub prune_trackers : Map Bytes OnlineState → Map Bytes OnlineState
prune_trackers [] = []
prune_trackers ((key, s) ∷ m) =
    let rest = prune_trackers m in if is_idle s then rest else (key, s) ∷ rest

unfoldable pub prune_buckets {ℓ} : {B : Type ℓ} → Map Bytes OnlineState → Map Bytes B → Map Bytes B
prune_buckets [] hub = hub
prune_buckets ((key, s) ∷ m) hub = prune_buckets m (if is_idle s then delete key hub else hub)

-- The answers of `GetUserBucket`: (nil, false, true), (nil, false, false), (bucket, true, false),
-- and the panic of the bucket's constructor.
pub data Verdict (B : Type 0) : Type 0 where
  rejected unlimited panicked : Verdict B
  limited : B → Verdict B

abbrev pub no_limits : UserInfo
no_limits = record { uid = pos 0; speed_limit = 0; device_limit = pos 0 }

abbrev pub user_or_default : Option UserInfo → UserInfo
user_or_default none = no_limits
user_or_default (some u) = u

abbrev pub tracker_or_new : Option OnlineState → OnlineState
tracker_or_new none = no_devices
tracker_or_new (some s) = s

module _ {B : Type 0} where
  unfoldable pub add_inbound_limiter : Bytes → ℕ → List Api.UserInfo → Limiter B → Limiter B
  unfolding store_users insert
  add_inbound_limiter tag node_speed_limit users l = insert tag info l
    where
      info : InboundInfo B
      info = record {
        tag = tag;
        node_speed_limit = node_speed_limit;
        user_info = store_users tag users [];
        bucket_hub = [];
        online_ips = [];
      }

  -- `none` is the error "no such inbound in limiter".
  unfoldable pub update_inbound_limiter : Bytes → List Api.UserInfo → Limiter B → Option (Limiter B)
  update_inbound_limiter tag users l = elim (lookup tag l) [
    | none ↦ none
    | some info ↦ some (
        insert tag
          (record info {
            user_info = store_users tag users info.user_info;
            bucket_hub = delete_keys tag users info.bucket_hub;
          })
          l)
  ]

  unfoldable pub delete_users_from_limiter : Bytes → List Api.UserInfo → Limiter B → Limiter B
  delete_users_from_limiter tag users l = elim (lookup tag l) [
    | none ↦ l
    | some info ↦
        insert tag
          (record info {
            user_info = delete_keys tag users info.user_info;
            bucket_hub = delete_keys tag users info.bucket_hub;
            online_ips = delete_keys tag users info.online_ips;
          })
          l
  ]

  unfoldable pub delete_inbound_limiter : Bytes → Limiter B → Limiter B
  delete_inbound_limiter tag l = delete tag l

  unfoldable pub get_online_device : Bytes → Limiter B → Option (List OnlineUser)
  get_online_device tag l = elim (lookup tag l) [
    | none ↦ none
    | some info ↦ some (report info.online_ips)
  ]

  unfoldable pub prune_stale_entries : Bytes → Limiter B → Limiter B
  prune_stale_entries tag l = elim (lookup tag l) [
    | none ↦ l
    | some info ↦
        insert tag
          (record info {
            bucket_hub = prune_buckets info.online_ips info.bucket_hub;
            online_ips = prune_trackers info.online_ips;
          })
          l
  ]

  unfoldable pub remove_online_ip : Bytes → Bytes → Bytes → Limiter B → Limiter B
  remove_online_ip tag email ip l = elim (lookup tag l) [
    | none ↦ l
    | some info ↦ elim (lookup email info.online_ips) [
      | none ↦ l
      | some s ↦
          insert tag (record info { online_ips = insert email (remove s ip) info.online_ips }) l
    ]
  ]

  module _ (new_bucket : ℕ → ℤ → ℤ → Option B) where
    -- The bucket of a user, made if there is none: 100 ms, a tenth of the rate at a time.
    unfoldable pub bucket_for : Bytes → ℕ → Map Bytes B → Verdict B × Map Bytes B
    bucket_for email limit hub = elim (lookup email hub) [
      | some b ↦ (limited b, hub)
      | none ↦ elim (new_bucket 100_000_000 (tenth limit) (tenth limit)) [
        | none ↦ (panicked, hub)
        | some b ↦ (limited b, insert email b hub)
      ]
    ]

    -- What an admitted connection gets: no bucket where no limit applies.
    unfoldable pub speed_verdict : ℕ → Bytes → Map Bytes B → Verdict B × Map Bytes B
    speed_verdict limit email hub =
        if nat_beq limit 0 then (unlimited, hub) else bucket_for email limit hub

    -- The call on a registered inbound.
    unfoldable pub admit : InboundInfo B → Bytes → Bytes → Verdict B × InboundInfo B
    admit info email ip =
        let user = user_or_default (lookup email info.user_info) in
        let tracker = tracker_or_new (lookup email info.online_ips) in
        let (added, tracker') = try_add tracker ip user.uid user.device_limit in
        let trackers = insert email tracker' info.online_ips in
        let rate = determine_rate info.node_speed_limit user.speed_limit in
        let (verdict, hub) = speed_verdict rate email info.bucket_hub in
        if added
        then (verdict, record info { online_ips = trackers; bucket_hub = hub })
        else (rejected, record info { online_ips = trackers })

    unfoldable pub get_user_bucket : Bytes → Bytes → Bytes → Limiter B → Verdict B × Limiter B
    get_user_bucket tag email ip l = elim (lookup tag l) [
      | none ↦ (rejected, l)
      | some info ↦ let (verdict, info') = admit info email ip in (verdict, insert tag info' l)
    ]
