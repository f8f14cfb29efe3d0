-- ===== src/Limiter/Tests.antt =====
-- Runs of the limiter on a node with one user.
use xray_r4u.Base.{
  ℕ, ◌^◌, ◌<◌, ◌⊎◌, leb_ℤ, ◌≡◌, refl, true, false, Option, none, some, [], ◌∷◌, Bytes, codes, ℤ,
  pos, ltb_ℤ, int32, ◌↔◌, if◌then◌else◌, inl, inr, bytes_eq, bytes_beq, ◌≤◌, arith, Bool-cases,
}
use xray_r4u.GoMap.{lookup, insert, delete}
use xray_r4u.Api
use xray_r4u.Text.{show_int}
use xray_r4u.Limiter.Online.{try_add, copy_all}
use xray_r4u.Limiter.Rate.{determine_rate, tenth}
use xray_r4u.Limiter.Registry.{
  Limiter, InboundInfo, email_key, key_of, limits_of, store_users, add_inbound_limiter,
  delete_users_from_limiter, get_user_bucket, remove_online_ip, prune_stale_entries, delete_keys,
  bucket_for, speed_verdict, admit,
}
use xray_r4u.Limiter.Admission.{is_rejected, is_panicked, refs_at, Refuses, get_user_bucket-Refuses}
use xray_r4u.Limiter.Prune.{HasTrackers}
use xray_r4u.Limiter.Race.{get_user_bucket_pruned, pruned_admission_unseen}
use xray_r4u.Limiter.Panics.{rate_of, get_user_bucket_panics}
use xray_r4u.Limiter.Users.{lists}
use xray_r4u.Limiter.Connections.{Conn, World, Step, Reach, IsExact, Reach-IsExact, after_connect}
use xray_r4u.Limiter.Devices.{devices, get_user_bucket_bounded, stale_close_frees_slot}

-- A bucket is its capacity; the constructor refuses a quantum of 0 or less.
abbrev pub test_bucket : ℕ → ℤ → ℤ → Option ℤ
test_bucket interval capacity quantum = if ltb_ℤ (pos 0) quantum then some capacity else none

abbrev pub tag_a : Bytes
tag_a = codes "a"

abbrev pub home : Bytes
home = codes "10.0.0.1"

abbrev away : Bytes
away = codes "10.0.0.2"

abbrev user_7 : Api.UserInfo
user_7 = record {
  uid = pos 7;
  email = codes "seven";
  passwd = [];
  port = pos 0;
  method = [];
  speed_limit = 1000;
  device_limit = pos 1;
  protocol = [];
  protocol_param = [];
  obfs = [];
  obfs_param = [];
  uuid = codes "uuid-7";
  alter_id = pos 0;
}

abbrev pub key_7 : Bytes
key_7 = codes "a|seven|7"

abbrev pub node_a : Limiter ℤ
node_a = add_inbound_limiter tag_a 0 (user_7 ∷ []) []

abbrev connected : Limiter ℤ
connected = (get_user_bucket test_bucket tag_a key_7 home node_a).1

key_7_runs : key_of tag_a user_7 ≡ key_7
unfolding email_key show_int
key_7_runs = refl

abbrev info_a : InboundInfo ℤ
info_a = record {
  tag = tag_a;
  node_speed_limit = 0;
  user_info = (key_7, limits_of user_7) ∷ [];
  bucket_hub = [];
  online_ips = [];
}

node_a_runs : lookup tag_a node_a ≡ some info_a
unfolding lookup add_inbound_limiter store_users insert email_key show_int
node_a_runs = refl

seven_listed : lists tag_a key_7 (user_7 ∷ []) ≡ true
unfolding email_key show_int
seven_listed = refl

seven_devices : devices tag_a key_7 node_a ≤ 1
unfolding lookup add_inbound_limiter store_users insert email_key show_int
seven_devices = omega arith

seven_limits : lookup key_7 info_a.user_info ≡ some (limits_of user_7)
unfolding lookup
seven_limits = refl

one_device : (limits_of user_7).device_limit ≡ pos 1
unfolding int32
one_device = refl

refused_away : is_rejected (get_user_bucket test_bucket tag_a key_7 away connected).0 ≡ true
unfolding get_user_bucket add_inbound_limiter lookup store_users insert email_key show_int int32
    admit try_add
refused_away = refl

get_user_bucket_bounded_example :
    devices tag_a key_7 (get_user_bucket test_bucket tag_a key_7 home node_a).1 ≤ 1
get_user_bucket_bounded_example =
    get_user_bucket_bounded test_bucket node_a tag_a key_7 home info_a (limits_of user_7) 1
      node_a_runs seven_limits one_device (omega arith) (omega arith) seven_devices

get_user_bucket-Refuses_example :
    (is_rejected (get_user_bucket test_bucket tag_a key_7 away connected).0 ≡ true)
    ↔ Refuses test_bucket (lookup tag_a connected) key_7 away
get_user_bucket-Refuses_example = get_user_bucket-Refuses test_bucket connected tag_a key_7 away

admitted_again :
    is_rejected
      (get_user_bucket test_bucket tag_a key_7 home
        (delete_users_from_limiter tag_a (user_7 ∷ []) connected)).0
    ≡ false
unfolding get_user_bucket add_inbound_limiter delete_users_from_limiter delete_keys delete lookup
    store_users insert email_key show_int int32 try_add bucket_for speed_verdict determine_rate
    tenth admit
admitted_again = refl

stale_close_frees_slot_example :
    let l' =
      (get_user_bucket test_bucket tag_a key_7 home
        (delete_users_from_limiter tag_a (user_7 ∷ []) connected)).1 in
    (refs_at tag_a key_7 home l' ≡ 1)
    × (refs_at tag_a key_7 home (remove_online_ip tag_a key_7 home l') ≡ 0)
stale_close_frees_slot_example =
    stale_close_frees_slot test_bucket connected tag_a key_7 home (user_7 ∷ []) seven_listed
      admitted_again

abbrev start : World ℤ
start = record { limiter = node_a; open_conns = [] }

abbrev conn : Conn
conn = record { tag = tag_a; email = key_7; ip = home }

start-tracked : (at_tag : Bytes) → HasTrackers (lookup at_tag node_a)
unfolding add_inbound_limiter lookup insert
start-tracked at_tag = elim (Bool-cases (bytes_beq tag_a at_tag)) [
  | inl e ↦ rw e tt
  | inr e ↦ rw e tt
]

start-counted : (t e ip : Bytes) → refs_at t e ip node_a ≡ 0
unfolding add_inbound_limiter lookup insert
start-counted t e ip = elim (Bool-cases (bytes_beq tag_a t)) [
  | inl h ↦ rw h refl
  | inr h ↦ rw h refl
]

pub start-IsExact : IsExact test_bucket start
start-IsExact = record { tracked = start-tracked; counted = start-counted }

-- A connection comes, and the limiter is pruned while it is open.
abbrev busy : World ℤ
busy = after_connect conn [] (get_user_bucket test_bucket tag_a key_7 home node_a)

abbrev pruned : World ℤ
pruned = record { limiter = prune_stale_entries tag_a busy.limiter; open_conns = busy.open_conns }

no_panic : is_panicked (get_user_bucket test_bucket tag_a key_7 home node_a).0 ≡ false
unfolding get_user_bucket add_inbound_limiter lookup store_users insert email_key show_int int32
    admit try_add speed_verdict bucket_for determine_rate tenth
no_panic = refl

Reach-IsExact_example : IsExact test_bucket pruned
Reach-IsExact_example =
    Reach-IsExact test_bucket start-IsExact
      (Reach.next (Reach.next Reach.here (Step.connect conn no_panic)) (Step.prune tag_a))

-- A connection comes while the limiter is pruned, and a second device is let in, above the limit of one.
pruned_admission_unseen_example :
    let r = get_user_bucket_pruned test_bucket tag_a key_7 home node_a in
    (is_rejected r.0 ≡ false)
    × ((refs_at tag_a key_7 home r.1 ≡ 0)
        × (is_rejected (get_user_bucket test_bucket tag_a key_7 away r.1).0 ≡ false))
unfolding lookup copy_all
pruned_admission_unseen_example =
    pruned_admission_unseen test_bucket node_a tag_a key_7 home home away info_a node_a_runs tt refl

-- A user of five bytes a second.
abbrev info_slow : InboundInfo ℤ
info_slow = record info_a {
  user_info = (key_7, record (limits_of user_7) { speed_limit = 5 }) ∷ [];
}

test_bucket-refuses : (n : ℤ) → (test_bucket 100_000_000 n n ≡ none) ↔ (leb_ℤ n (pos 0) ≡ true)
test_bucket-refuses n = ground arith

slow_runs : lookup tag_a ((tag_a, info_slow) ∷ []) ≡ some info_slow
unfolding lookup
slow_runs = refl

slow_fits : rate_of test_bucket test_bucket-refuses key_7 info_slow < 2 ^ 64
unfolding lookup determine_rate
slow_fits = omega arith

get_user_bucket_panics_example :
    (is_panicked (get_user_bucket test_bucket tag_a key_7 home ((tag_a, info_slow) ∷ [])).0 ≡ true)
    ↔ ((Refuses test_bucket (some info_slow) key_7 home → ⊥)
        × ((lookup key_7 info_slow.bucket_hub ≡ none)
            × ((0 < rate_of test_bucket test_bucket-refuses key_7 info_slow)
                × ((rate_of test_bucket test_bucket-refuses key_7 info_slow < 10)
                    ⊎ (2 ^ 63 ≤ rate_of test_bucket test_bucket-refuses key_7 info_slow)))))
get_user_bucket_panics_example =
    get_user_bucket_panics test_bucket test_bucket-refuses ((tag_a, info_slow) ∷ []) tag_a key_7
      home info_slow slow_runs slow_fits
