-- ===== src/Controller/Refund.antt =====
-- The counters over one traffic report: `userInfoMonitor` of service/controller/controller.go,
-- `getTraffic` and `restoreTraffic` of service/controller/control.go.
use xray_r4u.Base.{
  ℕ, ◌+◌, ◌≡◌, refl, sym, ◌∙◌, Bool, true, List, [], ◌∷◌, Bytes, bytes_beq, bytes_beq_iff, ltb,
  if◌then◌else◌, map, ◌||◌, arith,
}
use xray_r4u.Api
use xray_r4u.Limiter.Registry.{email_key}
use xray_r4u.Controller.Traffic.{
  Stats, up_name, down_name, take_counter, get_traffic, put_back, restore_traffic, Drained,
  drain_users, restore_all, report_traffic, traffic_of, is_nil,
}

module _ (x : Stats) where
  open x use {State, value, has_counter, drain, add}

  abbrev amount : Bytes → Bytes → ℕ → ℕ
  amount n m k = if bytes_beq n m then k else 0

  -- What a list of drained users holds of one counter.
  abbrev pub owed : Bytes → List (Drained x) → ℕ
  owed m [] = 0
  owed m (d ∷ ds) = (amount (up_name d.key) m d.up + amount (down_name d.key) m d.down) + owed m ds

  owed-nil : (m : Bytes) (ds : List (Drained x)) → is_nil x ds ≡ true → owed m ds ≡ 0
  owed-nil m [] h = refl
  owed-nil m (d ∷ ds) h = ground arith

  -- A counter stands behind each amount.
  abbrev backed : Bytes → ℕ → State → Bool
  backed n k s = if ltb 0 k then has_counter n s else true

  abbrev IsBacked : List (Drained x) → State → Type 0
  IsBacked [] s = Unit
  IsBacked (d ∷ ds) s =
      (backed (up_name d.key) d.up s ≡ true)
      × (backed (down_name d.key) d.down s ≡ true)
      × IsBacked ds s

  value-take_counter :
      (n m : Bytes) (s : State)
      → value m s ≡ value m (take_counter x n s).1 + amount n m (take_counter x n s).0
  unfolding take_counter
  value-take_counter n m s = ground (arith, bytes_beq_iff n m, x.drained n s, x.value-drain n m s)

  has_counter-take_counter :
      (n m : Bytes) (s : State) → has_counter m (take_counter x n s).1 ≡ has_counter m s
  unfolding take_counter
  has_counter-take_counter n m s = ground (arith, x.has_counter-drain n m s)

  backed-take_counter : (n : Bytes) (s : State) → backed n (take_counter x n s).0 s ≡ true
  unfolding take_counter
  backed-take_counter n s = ground arith

  abbrev after_drain : List Api.UserInfo → Bytes → State → State
  after_drain us tag s = (drain_users x tag us s).1

  has_counter-get_traffic :
      (key m : Bytes) (s : State) → has_counter m (get_traffic x key s).1 ≡ has_counter m s
  unfolding get_traffic
  has_counter-get_traffic key m s =
      has_counter-take_counter (down_name key) m (take_counter x (up_name key) s).1
      ∙ has_counter-take_counter (up_name key) m s

  has_counter-drain_users :
      (tag : Bytes) (us : List Api.UserInfo) (s : State) (m : Bytes)
      → has_counter m (drain_users x tag us s).1 ≡ has_counter m s
  unfolding drain_users
  has_counter-drain_users tag [] s m = refl
  has_counter-drain_users tag (u ∷ us) s m =
      let key = email_key tag u.email u.uid in
      has_counter-drain_users tag us (get_traffic x key s).1 m ∙ has_counter-get_traffic key m s

  value-get_traffic :
      (key m : Bytes) (s : State)
      → value m s
        ≡ value m (get_traffic x key s).1
          + (amount (up_name key) m (get_traffic x key s).0.0
              + amount (down_name key) m (get_traffic x key s).0.1)
  unfolding get_traffic
  value-get_traffic key m s = ground (
    arith,
    value-take_counter (up_name key) m s,
    value-take_counter (down_name key) m (take_counter x (up_name key) s).1,
  )

  backed-get_traffic :
      (key : Bytes) (s : State)
      → (backed (up_name key) (get_traffic x key s).0.0 s ≡ true)
        × (backed (down_name key) (get_traffic x key s).0.1 s ≡ true)
  unfolding get_traffic
  backed-get_traffic key s =
      let s1 = (take_counter x (up_name key) s).1 in
      ground (
        arith,
        backed-take_counter (up_name key) s,
        backed-take_counter (down_name key) s1,
        has_counter-take_counter (up_name key) (down_name key) s,
      )

  -- What the drain takes off a counter is what the drained users hold of it, even where two users
  -- share a key.
  pub drain_users-conserves :
      (tag : Bytes) (us : List Api.UserInfo) (s : State) (m : Bytes)
      → value m s ≡ value m (drain_users x tag us s).1 + owed m (drain_users x tag us s).0
  unfolding drain_users
  drain_users-conserves tag [] s m = ground arith
  drain_users-conserves tag (u ∷ us) s m =
      let key = email_key tag u.email u.uid in
      ground
        (arith, value-get_traffic key m s, drain_users-conserves tag us (get_traffic x key s).1 m)

  IsBacked-transfer :
      (ds : List (Drained x)) (s s' : State)
      → ((m : Bytes) → has_counter m s ≡ has_counter m s')
      → IsBacked ds s
      → IsBacked ds s'
  IsBacked-transfer [] s s' same b = tt
  IsBacked-transfer (d ∷ ds) s s' same b =
      ground
        (arith, same (up_name d.key), same (down_name d.key), IsBacked-transfer ds s s' same b.2)

  drain_users-IsBacked :
      (tag : Bytes) (us : List Api.UserInfo) (s : State) → IsBacked (drain_users x tag us s).0 s
  unfolding drain_users
  drain_users-IsBacked tag [] s = tt
  drain_users-IsBacked tag (u ∷ us) s =
      let key = email_key tag u.email u.uid in
      let s1 = (get_traffic x key s).1 in
      let rest = (drain_users x tag us s1).0 in
      ground (
        arith,
        backed-get_traffic key s,
        IsBacked-transfer rest s1 s (λ m. has_counter-get_traffic key m s)
            (drain_users-IsBacked tag us s1),
      )

  value-put_back :
      (n m : Bytes) (k : ℕ) (s : State)
      → backed n k s ≡ true
      → value m (put_back x n k s) ≡ value m s + amount n m k
  unfolding put_back
  value-put_back n m k s b = ground (arith, x.value-add n m k s)

  has_counter-put_back :
      (n m : Bytes) (k : ℕ) (s : State)
      → backed n k s ≡ true
      → has_counter m (put_back x n k s) ≡ has_counter m s
  unfolding put_back
  has_counter-put_back n m k s b = ground (arith, x.has_counter-add n m k s)

  value-restore_traffic :
      (d : Drained x) (m : Bytes) (s : State)
      → backed (up_name d.key) d.up s ≡ true
      → backed (down_name d.key) d.down s ≡ true
      → value m (restore_traffic x d.key d.up d.down s)
        ≡ value m s + (amount (up_name d.key) m d.up + amount (down_name d.key) m d.down)
  unfolding restore_traffic
  value-restore_traffic d m s b c =
      let s1 = put_back x (up_name d.key) d.up s in
      ground (
        arith,
        value-put_back (up_name d.key) m d.up s b,
        has_counter-put_back (up_name d.key) (down_name d.key) d.up s b,
        value-put_back (down_name d.key) m d.down s1,
      )

  has_counter-restore_traffic :
      (d : Drained x) (m : Bytes) (s : State)
      → backed (up_name d.key) d.up s ≡ true
      → backed (down_name d.key) d.down s ≡ true
      → has_counter m (restore_traffic x d.key d.up d.down s) ≡ has_counter m s
  unfolding restore_traffic
  has_counter-restore_traffic d m s b c =
      let s1 = put_back x (up_name d.key) d.up s in
      ground (
        arith,
        has_counter-put_back (up_name d.key) m d.up s b,
        has_counter-put_back (up_name d.key) (down_name d.key) d.up s b,
        has_counter-put_back (down_name d.key) m d.down s1,
      )

  value-restore_all :
      (ds : List (Drained x)) (s : State) (m : Bytes)
      → IsBacked ds s
      → value m (restore_all x ds s) ≡ value m s + owed m ds
  unfolding restore_all
  value-restore_all [] s m b = ground arith
  value-restore_all (d ∷ ds) s m b =
      let s1 = restore_traffic x d.key d.up d.down s in
      ground (
        arith,
        value-restore_traffic d m s b.0 b.1,
        value-restore_all ds s1 m
            (IsBacked-transfer ds s s1 (λ n. sym (has_counter-restore_traffic d n s b.0 b.1)) b.2),
      )

  -- Whatever the panel answers and whatever users the list holds, twice or not, each counter loses
  -- exactly what was drained from it if uploading is off, or the panel takes the report; if the
  -- panel refuses the report, each counter is as before.
  pub report_traffic_lem :
      (push : List Api.UserTraffic → Bool) (disabled : Bool) (tag : Bytes) (us : List Api.UserInfo)
      (s : State) (m : Bytes)
      → value m s
        ≡ value m (report_traffic x push disabled tag us s)
          + (if disabled || push (map (traffic_of x) (drain_users x tag us s).0)
              then owed m (drain_users x tag us s).0
              else 0)
  unfolding report_traffic
  report_traffic_lem push disabled tag us s m =
      let found = (drain_users x tag us s).0 in
      let s' = (drain_users x tag us s).1 in
      ground (
        arith,
        drain_users-conserves tag us s m,
        value-restore_all found s' m (
            IsBacked-transfer found s s' (λ n. sym (has_counter-drain_users tag us s n))
              (drain_users-IsBacked tag us s)),
        owed-nil m found,
      )
