-- ===== src/Limiter/Rate.antt =====
-- `determineRate` of common/limiter/limiter.go, and the parameters of a user's token bucket.
use xray_r4u.Base.{
  ◌+◌, ℕ, zero, suc, ◌-◌, ◌/◌, ◌%◌, ◌^◌, ◌≤◌, ◌<◌, ◌≡◌, ◌⊎◌, ◌&&◌, ltb, nat_beq, if◌then◌else◌, ℤ,
  pos, negsuc, arith,
}

unfoldable pub determine_rate : ℕ → ℕ → ℕ
determine_rate node_limit user_limit =
    if nat_beq node_limit 0 && nat_beq user_limit 0
    then 0
    else if nat_beq node_limit 0
    then user_limit
    else if nat_beq user_limit 0
    then node_limit
    else if ltb node_limit user_limit
    then node_limit
    else user_limit

abbrev minus : ℕ → ℤ
minus zero = pos 0
minus (suc n) = negsuc n

-- `int64(limit)/10`: the conversion keeps the bits, the division rounds towards zero.
unfoldable pub tenth : ℕ → ℤ
tenth limit =
    let w = limit % 2 ^ 64 in if ltb w (2 ^ 63) then pos (w / 10) else minus ((2 ^ 64 - w) / 10)

-- A limit of 0 is no limit: a rate is admissible if it respects each limit that is set.
abbrev pub Respects : ℕ → ℕ → Type 0
Respects rate limit = (limit ≡ 0) ⊎ ((0 < rate) × (rate ≤ limit))

-- Where a limit is set, the rate is positive and respects both, and no rate that respects both is
-- larger.
pub determine_rate_strictest :
    (node user rate : ℕ)
    → Respects rate node
    → Respects rate user
    → 0 < node + user
    → Respects (determine_rate node user) node
      × Respects (determine_rate node user) user
      × (0 < determine_rate node user)
      × (rate ≤ determine_rate node user)
unfolding determine_rate
determine_rate_strictest node user rate p q h =
    (ground arith, ground arith, ground arith, ground arith)

-- A limit of ten bytes a second or more, within an int64, gives a bucket a positive size.
pub tenth_pos : (limit : ℕ) → 10 ≤ limit → limit < 2 ^ 63 → tenth limit ≡ pos (limit / 10)
unfolding tenth
tenth_pos limit h w = ground arith
