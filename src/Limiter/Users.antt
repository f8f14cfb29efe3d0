-- ===== src/Limiter/Users.antt =====
-- What the calls of the controller do to the users of an inbound: registration, refresh, removal;
-- and the keys under which they are stored.
use xray_r4u.Base.{
  ℕ, ◌≡◌, refl, sym, ap, ◌∙◌, Bool, false, Option, none, some, List, [], ◌∷◌, ◌++◌, Bytes, ℤ,
  if◌then◌else◌, bytes_eq, bytes_beq, bytes_beq_iff, arith, inl, inr, Option-cases, ◌||◌, ◌&&◌, ◌↔◌,
}
use mathlib.Core.List.{append_assoc, append_cancel_left, append_cancel_right}
use xray_r4u.Text.{
  split, last_part, last_part-split, atoi, atoi-show_int, show_int, show_int-no_bar, IsInt64,
}
use xray_r4u.GoMap.{Map, lookup, insert, delete, lookup-insert, lookup-delete, lookup-nil}
use xray_r4u.Limiter.Online.{OnlineState}
use xray_r4u.Api
use xray_r4u.Limiter.Registry.{
  Limiter, InboundInfo, UserInfo, email_key, key_of, limits_of, store_users, delete_keys,
  add_inbound_limiter, update_inbound_limiter, delete_users_from_limiter,
}

email_key-last :
    (tag email : Bytes) (uid : ℤ) → last_part (split b'|' (email_key tag email uid)) ≡ show_int uid
unfolding email_key
email_key-last tag email uid =
    ap (λ s. last_part (split b'|' s)) (sym (append_assoc tag (b'|' ∷ email) (b'|' ∷ show_int uid)))
    ∙ last_part-split b'|' (tag ++ b'|' ∷ email) (show_int uid) (show_int-no_bar uid)

-- The uid can be read back from a key, whatever bytes the tag and the email hold.
pub atoi-email_key :
    (tag email : Bytes) (uid : ℤ)
    → IsInt64 uid
    → atoi (last_part (split b'|' (email_key tag email uid))) ≡ some uid
atoi-email_key tag email uid h = rw email_key-last (atoi-show_int uid h)

abbrev cut_bar : Bytes → Bytes
cut_bar [] = []
cut_bar (c ∷ s) = s

some-inj : (a b : ℤ) → some a ≡ some b → a ≡ b
some-inj a b h = cc

-- On one inbound, two users with 64-bit uids and the same key are one user: equal uid and equal
-- email.
pub email_key-injective :
    (tag email email' : Bytes) (uid uid' : ℤ)
    → IsInt64 uid
    → IsInt64 uid'
    → email_key tag email uid ≡ email_key tag email' uid'
    → (email ≡ email') × (uid ≡ uid')
email_key-injective tag email email' uid uid' h h' e =
    let same : uid ≡ uid' = some-inj uid uid' (
      sym (atoi-email_key tag email uid h)
      ∙ ap (λ k. atoi (last_part (split b'|' k))) e
      ∙ atoi-email_key tag email' uid' h') in
    let tail = b'|' ∷ show_int uid in
    let cut : email ++ tail ≡ email' ++ tail =
      ap (cut_bar) (
        append_cancel_left tag (b'|' ∷ (email ++ tail)) (b'|' ∷ (email' ++ b'|' ∷ show_int uid'))
          (unfold email_key in e))
      ∙ ap (λ u. email' ++ b'|' ∷ show_int u) (sym same) in
    (append_cancel_right email email' tail cut, same)

-- Some user of the list has the key.
abbrev pub lists : Bytes → Bytes → List Api.UserInfo → Bool
lists tag key [] = false
lists tag key (u ∷ us) = bytes_beq (key_of tag u) key || lists tag key us

-- The limits of the last user in the list with the key; `before` if there is none.
abbrev pub latest : Bytes → Bytes → List Api.UserInfo → Option UserInfo → Option UserInfo
latest tag key [] before = before
latest tag key (u ∷ us) before =
    latest tag key us (if bytes_beq (key_of tag u) key then some (limits_of u) else before)

lookup-store_users :
    (tag key : Bytes) (us : List Api.UserInfo) (m : Map Bytes UserInfo)
    → lookup key (store_users tag us m) ≡ latest tag key us (lookup key m)
unfolding store_users
lookup-store_users tag key [] m = refl
lookup-store_users tag key (u ∷ us) m =
    lookup-store_users tag key us (insert (key_of tag u) (limits_of u) m)
    ∙ ap (latest tag key us) (lookup-insert (key_of tag u) key (limits_of u) m)

store_users_fresh :
    (tag key : Bytes) (us : List Api.UserInfo)
    → lookup key (store_users tag us []) ≡ latest tag key us none
unfolding lookup
store_users_fresh tag key us = lookup-store_users tag key us []

lookup-delete_keys {ℓ} :
    {V : Type ℓ} (tag key : Bytes) (us : List Api.UserInfo) (m : Map Bytes V)
    → lookup key (delete_keys tag us m) ≡ (if lists tag key us then none else lookup key m)
unfolding delete_keys
lookup-delete_keys tag key [] m = refl
lookup-delete_keys tag key (u ∷ us) m = ground (
  arith,
  lookup-delete_keys tag key us (delete (key_of tag u) m),
  lookup-delete (key_of tag u) key m,
)

abbrev pub Entry : Type 0 → Type 0
Entry B = Option UserInfo × Option B × Option OnlineState

module _ {B : Type 0} where
  abbrev pub entry_in : Bytes → Option (InboundInfo B) → Entry B
  entry_in key none = (none, none, none)
  entry_in key (some info) =
      (lookup key info.user_info, lookup key info.bucket_hub, lookup key info.online_ips)

  -- All that an inbound holds under a key: the limits, the bucket, the tracker.
  abbrev pub entry_at : Bytes → Bytes → Limiter B → Entry B
  entry_at tag key l = entry_in key (lookup tag l)

  abbrev pub cleared : Bool → Entry B → Entry B
  cleared gone entry = if gone then (none, none, none) else entry

  -- Deleting users clears all that is held under their keys, on that inbound, and nothing else.
  pub delete_users_from_limiter_lem :
      (l : Limiter B) (tag : Bytes) (us : List Api.UserInfo) (at_tag key : Bytes)
      → entry_at at_tag key (delete_users_from_limiter tag us l)
        ≡ cleared (bytes_beq tag at_tag && lists tag key us) (entry_at at_tag key l)
  unfolding delete_users_from_limiter
  delete_users_from_limiter_lem l tag us at_tag key = elim (Option-cases (lookup tag l)) [
    | inl e ↦ ground (arith, bytes_beq_iff tag at_tag)
    | inr (info, e) ↦
        let info' : InboundInfo B = record info {
          user_info = delete_keys tag us info.user_info;
          bucket_hub = delete_keys tag us info.bucket_hub;
          online_ips = delete_keys tag us info.online_ips;
        } in
        ground (
          arith,
          bytes_beq_iff tag at_tag,
          lookup-insert tag at_tag info' l,
          lookup-delete_keys tag key us info.user_info,
          lookup-delete_keys tag key us info.bucket_hub,
          lookup-delete_keys tag key us info.online_ips,
        )
  ]

  abbrev pub refreshed : Bytes → Bytes → List Api.UserInfo → Entry B → Entry B
  refreshed tag key us entry =
      (latest tag key us entry.0, (if lists tag key us then none else entry.1), entry.2)

  -- A refresh fails exactly on an unknown inbound. Else each listed user has the limits that the
  -- list gives last, a new bucket will be made, and the connections stay counted; nothing else moves.
  pub update_inbound_limiter_lem :
      (l l' : Limiter B) (tag : Bytes) (us : List Api.UserInfo)
      → update_inbound_limiter tag us l ≡ some l'
      → (at_tag key : Bytes)
      → entry_at at_tag key l' ≡ (
          if bytes_beq tag at_tag
          then refreshed tag key us (entry_at at_tag key l)
          else entry_at at_tag key l)
  unfolding update_inbound_limiter
  update_inbound_limiter_lem l l' tag us ok at_tag key = elim (Option-cases (lookup tag l)) [
    | inl e ↦ absurd (ground arith)
    | inr (info, e) ↦
        let info' : InboundInfo B = record info {
          user_info = store_users tag us info.user_info;
          bucket_hub = delete_keys tag us info.bucket_hub;
        } in
        ground (
          arith,
          bytes_beq_iff tag at_tag,
          lookup-insert tag at_tag info' l,
          lookup-store_users tag key us info.user_info,
          lookup-delete_keys tag key us info.bucket_hub,
        )
  ]

  pub update_inbound_limiter_fails :
      (l : Limiter B) (tag : Bytes) (us : List Api.UserInfo)
      → (update_inbound_limiter tag us l ≡ none) ↔ (lookup tag l ≡ none)
  unfolding update_inbound_limiter
  update_inbound_limiter_fails l tag us = ground arith

  -- A registration holds the listed users' limits and no bucket, no connection; it replaces
  -- whatever the inbound held, and no other inbound moves.
  pub add_inbound_limiter_lem :
      (l : Limiter B) (tag : Bytes) (speed : ℕ) (us : List Api.UserInfo) (at_tag key : Bytes)
      → entry_at at_tag key (add_inbound_limiter tag speed us l) ≡ (
          if bytes_beq tag at_tag
          then (latest tag key us none, none, none)
          else entry_at at_tag key l)
  unfolding add_inbound_limiter
  add_inbound_limiter_lem l tag speed us at_tag key = ground (
    arith,
    bytes_beq_iff tag at_tag,
    lookup-insert tag at_tag
        (record {
          tag = tag;
          node_speed_limit = speed;
          user_info = store_users tag us [];
          bucket_hub = [];
          online_ips = [];
        })
        l,
    store_users_fresh tag key us,
    lookup-nil B key,
    lookup-nil OnlineState key,
  )
