-- ===== src/Controller/Traffic.antt =====
-- The traffic report of `userInfoMonitor` (service/controller/controller.go) with `getTraffic` and
-- `restoreTraffic` of service/controller/control.go: counters are drained, and put back when the
-- panel does not take the report. xray-core's counters are an interface; they count bytes, so their
-- values are natural numbers here, and an addition does not reach 2^63.
use xray_r4u.Base.{
  ℕ, ◌+◌, ◌≡◌, Bool, true, false, Option, none, some, List, [], ◌∷◌, ◌++◌, Bytes, bytes_eq, ltb,
  bytes_beq, if◌then◌else◌, codes, ◌||◌, ◌&&◌, pos, map, nat_beq,
}
use xray_r4u.Api
use xray_r4u.Limiter.Registry.{email_key}

pub record Stats : Type 1 where
  pub State : Type 0
  pub value : Bytes → State → ℕ
  pub has_counter : Bytes → State → Bool
  -- `Set(0)`, which answers the value before.
  pub drain : Bytes → State → ℕ × State
  pub add : Bytes → ℕ → State → State
  -- `GetOrRegisterCounter`; `none` is an error.
  pub register : Bytes → State → Option State
  pub value-no_counter : (n : Bytes) (s : State) → has_counter n s ≡ false → value n s ≡ 0
  pub drained : (n : Bytes) (s : State) → has_counter n s ≡ true → (drain n s).0 ≡ value n s
  pub value-drain :
      (n m : Bytes) (s : State)
      → has_counter n s ≡ true
      → value m (drain n s).1 ≡ (if bytes_beq n m then 0 else value m s)
  pub has_counter-drain : (n m : Bytes) (s : State) → has_counter m (drain n s).1 ≡ has_counter m s
  pub value-add :
      (n m : Bytes) (k : ℕ) (s : State)
      → has_counter n s ≡ true
      → value m (add n k s) ≡ (if bytes_beq n m then value m s + k else value m s)
  pub has_counter-add :
      (n m : Bytes) (k : ℕ) (s : State) → has_counter m (add n k s) ≡ has_counter m s

abbrev pub up_name : Bytes → Bytes
up_name email = codes "user>>>" ++ (email ++ codes ">>>traffic>>>uplink")

abbrev pub down_name : Bytes → Bytes
down_name email = codes "user>>>" ++ (email ++ codes ">>>traffic>>>downlink")

module _ (x : Stats) where
  open x use {State, value, has_counter, drain, add, register}

  unfoldable pub take_counter : Bytes → State → ℕ × State
  take_counter n s = if has_counter n s then drain n s else (0, s)

  unfoldable pub get_traffic : Bytes → State → (ℕ × ℕ) × State
  unfolding take_counter
  get_traffic email s =
      let (up, s1) = take_counter (up_name email) s in
      let (down, s2) = take_counter (down_name email) s1 in ((up, down), s2)

  abbrev pub add_if_registered : Bytes → ℕ → State → Option State → State
  add_if_registered n k s none = s
  add_if_registered n k s (some s') = add n k s'

  unfoldable pub put_back : Bytes → ℕ → State → State
  put_back n k s =
      if ltb 0 k
      then (if has_counter n s then add n k s else add_if_registered n k s (register n s))
      else s

  -- With both amounts 0 neither counter is touched.
  unfoldable pub restore_traffic : Bytes → ℕ → ℕ → State → State
  unfolding put_back
  restore_traffic email up down s =
      if nat_beq up 0 && nat_beq down 0
      then s
      else put_back (down_name email) down (put_back (up_name email) up s)

  -- What a drain of one user found, under the key it was drained with.
  pub record Drained : Type 0 where
    pub user : Api.UserInfo
    pub key : Bytes
    pub up : ℕ
    pub down : ℕ

  unfoldable pub drain_users : Bytes → List Api.UserInfo → State → List Drained × State
  unfolding get_traffic
  drain_users tag [] s = ([], s)
  drain_users tag (u ∷ us) s =
      let key = email_key tag u.email u.uid in
      let (t, s1) = get_traffic key s in
      let (rest, s2) = drain_users tag us s1 in
      let found : Drained = record { user = u; key = key; up = t.0; down = t.1 } in
      (if ltb 0 t.0 || ltb 0 t.1 then found ∷ rest else rest, s2)

  unfoldable pub restore_all : List Drained → State → State
  unfolding restore_traffic
  restore_all [] s = s
  restore_all (d ∷ ds) s = restore_all ds (restore_traffic d.key d.up d.down s)

  abbrev pub traffic_of : Drained → Api.UserTraffic
  traffic_of d = record {
    uid = d.user.uid;
    email = d.user.email;
    upload = pos d.up;
    download = pos d.down;
  }

  abbrev pub is_nil : List Drained → Bool
  is_nil [] = true
  is_nil (_ ∷ _) = false

  -- `push` is the panel's answer to the report; uploading may be switched off.
  unfoldable pub report_traffic :
      (List Api.UserTraffic → Bool) → Bool → Bytes → List Api.UserInfo → State → State
  unfolding drain_users restore_all
  report_traffic push disabled tag us s =
      let (found, s') = drain_users tag us s in
      if is_nil found || disabled
      then s'
      else if push (map traffic_of found)
      then s'
      else restore_all found s'
