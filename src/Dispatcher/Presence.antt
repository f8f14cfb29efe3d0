-- ===== src/Dispatcher/Presence.antt =====
-- The part of xray-core's stats.Manager that app/mydispatcher/default.go calls: online maps, which
-- count the connections of an address under a name. Loopback addresses are not counted.
use xray_r4u.Base.{ℕ, ◌+◌, ◌-◌, ◌≡◌, Bool, Bytes, bytes_beq, ◌&&◌}
use xray_r4u.Limiter.Slots.{bump}

pub record Presence : Type 1 where
  pub State : Type 0
  pub counts : Bytes → Bool
  -- The connections counted under a name for an address.
  pub online : Bytes → Bytes → State → ℕ
  -- `GetOrRegisterOnlineMap`; false where it gives no map.
  pub get_or_register : Bytes → State → Bool × State
  pub add_ip : Bytes → Bytes → State → State
  pub remove_ip : Bytes → Bytes → State → State
  pub online-get_or_register :
      (n m ip : Bytes) (s : State) → online m ip (get_or_register n s).1 ≡ online m ip s
  pub online-add_ip :
      (n ip m at_ip : Bytes) (s : State)
      → online m at_ip (add_ip n ip s)
        ≡ online m at_ip s + bump (counts ip && (bytes_beq n m && bytes_beq ip at_ip))
  pub online-remove_ip :
      (n ip m at_ip : Bytes) (s : State)
      → online m at_ip (remove_ip n ip s)
        ≡ online m at_ip s - bump (bytes_beq n m && bytes_beq ip at_ip)
