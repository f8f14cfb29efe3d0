-- ===== src/Limiter/Online.antt =====
-- The online tracker of one user (`userOnlineState` of common/limiter/limiter.go): which source
-- addresses hold a device slot, and how many connections each of them holds. Its mutex makes each
-- method one step.
use xray_r4u.Base.{
  ℕ, suc, ◌-◌, Bool, true, false, Option, none, some, [], Bytes, ℤ, pos, int32, ltb_ℤ, leb_ℤ,
  int_beq, leb, if◌then◌else◌, ◌&&◌, length, map, bytes_eq, refl, ◌≡◌,
}
use xray_r4u.GoMap.{Map, lookup, insert, delete}

pub record IpEntry : Type 0 where
  pub uid : ℤ
  pub refs : ℕ

pub record OnlineState : Type 0 where
  pub ips : Map Bytes IpEntry

-- The limit is an `int32`; 0 and below mean that there is none.
abbrev pub is_full : OnlineState → ℤ → Bool
is_full s limit = ltb_ℤ (pos 0) limit && leb_ℤ limit (int32 (pos (length s.ips)))

unfoldable pub try_add : OnlineState → Bytes → ℤ → ℤ → Bool × OnlineState
unfolding lookup insert
try_add s ip uid limit = elim (lookup ip s.ips) [
  | some e ↦
      let owner = if int_beq e.uid (pos 0) then uid else e.uid in
      (true, record { ips = insert ip (record { uid = owner; refs = suc e.refs }) s.ips })
  | none ↦
      if is_full s limit
      then (false, s)
      else (true, record { ips = insert ip (record { uid = uid; refs = 1 }) s.ips })
]

-- An entry at zero goes in either case, so the count needs no negative numbers.
unfoldable pub remove : OnlineState → Bytes → OnlineState
remove s ip = elim (lookup ip s.ips) [
  | none ↦ s
  | some e ↦
      if leb (e.refs - 1) 0
      then record { ips = delete ip s.ips }
      else record { ips = insert ip (record e { refs = e.refs - 1 }) s.ips }
]

unfoldable pub copy_all : OnlineState → Map Bytes ℤ
copy_all s = map (λ e. (e.0, e.1.uid)) s.ips

-- A fresh tracker: `make(map[string]*ipEntry)`.
abbrev pub no_devices : OnlineState
no_devices = record { ips = [] }

abbrev pub count_of : Option IpEntry → ℕ
count_of none = 0
count_of (some e) = e.refs

-- The connections that an address holds.
abbrev pub refs : Bytes → OnlineState → ℕ
refs ip s = count_of (lookup ip s.ips)

pub refs-no_devices : (ip : Bytes) → refs ip no_devices ≡ 0
unfolding lookup
refs-no_devices ip = refl
