-- ===== src/Limiter/Panics.antt =====
-- When `GetUserBucket` of common/limiter/limiter.go panics in the constructor of a bucket.
use xray_r4u.Base.{
  ℕ, ◌^◌, ◌<◌, ◌≤◌, ◌≡◌, ◌↔◌, ◌⊎◌, true, false, Option, none, some, Bytes, ℤ, pos, leb_ℤ, bytes_eq,
  arith, inl, inr, Bool-cases,
}
use xray_r4u.GoMap.{Map, lookup}
use xray_r4u.Limiter.Rate.{determine_rate, tenth}
use xray_r4u.Limiter.Registry.{
  Limiter, InboundInfo, user_or_default, bucket_for, speed_verdict, admit, get_user_bucket,
}
use xray_r4u.Limiter.Admission.{
  is_rejected, is_panicked, rejected-no_panic, speed_verdict-admits, Refuses,
  get_user_bucket-Refuses,
}

-- A rate of which `int64(limit)/10` is no positive number.
tenth-not_pos : (n : ℕ) → n < 2 ^ 64 → (leb_ℤ (tenth n) (pos 0) ≡ true) ↔ ((n < 10) ⊎ (2 ^ 63 ≤ n))
unfolding tenth
tenth-not_pos n h = ground arith

module _ {B : Type 0} (new_bucket : ℕ → ℤ → ℤ → Option B)
    (refuses : (n : ℤ) → (new_bucket 100_000_000 n n ≡ none) ↔ (leb_ℤ n (pos 0) ≡ true)) where
  bucket_for-panics :
      (email : Bytes) (rate : ℕ) (hub : Map Bytes B)
      → (is_panicked (bucket_for new_bucket email rate hub).0 ≡ true)
        ↔ ((lookup email hub ≡ none) × (leb_ℤ (tenth rate) (pos 0) ≡ true))
  unfolding bucket_for
  bucket_for-panics email rate hub = ground (arith, refuses (tenth rate))

  -- The rate that applies to a user of an inbound.
  abbrev pub rate_of : Bytes → InboundInfo B → ℕ
  rate_of email info =
      determine_rate info.node_speed_limit
        (user_or_default (lookup email info.user_info)).speed_limit

  speed_verdict-panics :
      (rate : ℕ) (email : Bytes) (hub : Map Bytes B)
      → rate < 2 ^ 64
      → (is_panicked (speed_verdict new_bucket rate email hub).0 ≡ true)
        ↔ ((lookup email hub ≡ none) × ((0 < rate) × ((rate < 10) ⊎ (2 ^ 63 ≤ rate))))
  unfolding speed_verdict
  speed_verdict-panics rate email hub h =
      ground (arith, bucket_for-panics email rate hub, tenth-not_pos rate h)

  admit-panics :
      (info : InboundInfo B) (email ip : Bytes)
      → (is_panicked (admit new_bucket info email ip).0 ≡ true) ↔ (
          (is_rejected (admit new_bucket info email ip).0 ≡ false)
          × (is_panicked (speed_verdict new_bucket (rate_of email info) email info.bucket_hub).0
              ≡ true))
  unfolding admit
  admit-panics info email ip =
      let verdict = (speed_verdict new_bucket (rate_of email info) email info.bucket_hub).0 in
      ground (
        arith,
        rejected-no_panic verdict,
        speed_verdict-admits new_bucket (rate_of email info) email info.bucket_hub,
      )

  -- If the constructor panics exactly at a quantum of zero or less: the call on a registered inbound
  -- panics exactly if it does not refuse the connection, no bucket of the user is stored, and the
  -- rate of the user, a 64-bit number, is set and is below 10 bytes a second or from 2^63 on.
  pub get_user_bucket_panics :
      (l : Limiter B) (tag email ip : Bytes) (info : InboundInfo B)
      → lookup tag l ≡ some info
      → rate_of email info < 2 ^ 64
      → (is_panicked (get_user_bucket new_bucket tag email ip l).0 ≡ true) ↔ (
          (Refuses new_bucket (some info) email ip → ⊥)
          × ((lookup email info.bucket_hub ≡ none)
              × ((0 < rate_of email info)
                  × ((rate_of email info < 10) ⊎ (2 ^ 63 ≤ rate_of email info)))))
  unfolding get_user_bucket
  get_user_bucket_panics l tag email ip info e fits =
      let v = admit new_bucket info email ip in
      let refused = get_user_bucket-Refuses new_bucket l tag email ip in
      let same : (get_user_bucket new_bucket tag email ip l).0 ≡ v.0 = ground (arith, e) in
      let judged : (is_rejected v.0 ≡ true) ↔ Refuses new_bucket (some info) email ip =
        rw same at (rw e at refused) in
      let panics = admit-panics info email ip in
      let rates = speed_verdict-panics (rate_of email info) email info.bucket_hub fits in
      rw same (
        λ p. let w = panics.0 p in (λ r. ground (arith, w.0, judged.1 r), rates.0 w.1),
        λ w. elim (Bool-cases (is_rejected v.0)) [
          | inl turn ↦ absurd (w.0 (judged.0 turn))
          | inr pass ↦ panics.1 (pass, rates.1 w.1)
        ],
      )
