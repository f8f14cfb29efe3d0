-- ===== src/Certs/Overlap.antt =====
-- Two renewals at once: nodeInfoMonitor of service/controller/controller.go starts each in a goroutine
-- of its own, and `applyDNSEnv` of common/legocmd/lego.go sets variables of the whole process.
use xray_r4u.Base.{
  ◌≡◌, refl, Bool, true, false, Option, none, some, List, [], ◌∷◌, Bytes, bytes_beq_iff, arith,
  if◌then◌else◌,
}
use xray_r4u.GoMap.{Map}
use xray_r4u.Certs.Keys.{allowed_dns_env_key}
use xray_r4u.Certs.System.{System}
use xray_r4u.Certs.Environment.{
  Prev, Applied, cleanup, put_back, restore, saved_now, apply_each, apply_dns_env,
}

module _ (x : System) where
  open x use {State, lookup_env, setenv}

  abbrev pub saved_of : Applied → List Prev
  saved_of (cleanup saved) = saved
  saved_of _ = []

  -- Both end by restoring what they saved: in the order they began, or the second one first.
  abbrev pub both_end : Bool → List Prev → List Prev → State → State
  both_end true first second s = restore x second (restore x first s)
  both_end false first second s = restore x first (restore x second s)

  -- The first sets its variables, then the second; then both end.
  abbrev pub overlapped : Bool → Map Bytes Bytes → Map Bytes Bytes → State → State
  overlapped in_order env other s =
      let (first, s1) = apply_dns_env x env s in
      let (second, s2) = apply_dns_env x other s1 in
      both_end in_order (saved_of first) (saved_of second) s2

  one_key :
      (key value : Bytes) (s : State)
      → allowed_dns_env_key key ≡ true
      → (setenv key value s).0 ≡ true
      → apply_dns_env x ((key, value) ∷ []) s
        ≡ (cleanup (saved_now x key s ∷ []), (setenv key value s).1)
  unfolding apply_dns_env apply_each
  one_key key value s ok done = rw (ok, done) refl

  set_now :
      (key value : Bytes) (s : State)
      → (setenv key value s).0 ≡ true
      → lookup_env key (setenv key value s).1 ≡ some value
  set_now key value s sets =
      ground (arith, x.lookup_env-setenv key value key s sets, bytes_beq_iff key key)

  put_back_now :
      (key : Bytes) (s t : State) (o : Option Bytes)
      → lookup_env key s ≡ o
      → lookup_env key (put_back x key o t) ≡ o
  put_back_now key s t none e =
      ground (arith, x.lookup_env-unsetenv key key t, bytes_beq_iff key key)
  put_back_now key s t (some v) e = set_now key v t (x.setenv-accepts key v s t e)

  -- Two renewals overlap that each set one variable, the same, the second after the first, and both
  -- end by restoring what they found. If they end in the order in which they began, the first one's
  -- value stays in the environment of the process, whatever it held before; if the second ends first,
  -- the variable is as it was before both.
  pub overlapped_renewals_leak :
      (in_order : Bool) (key value other : Bytes) (s : State)
      → allowed_dns_env_key key ≡ true
      → ((t : State) → (setenv key value t).0 ≡ true)
      → ((t : State) → (setenv key other t).0 ≡ true)
      → lookup_env key (overlapped in_order ((key, value) ∷ []) ((key, other) ∷ []) s)
        ≡ (if in_order then some value else lookup_env key s)
  unfolding restore
  overlapped_renewals_leak true key value other s ok sets sets_other =
      let s1 = (setenv key value s).1 in
      let first = one_key key value s ok (sets s) in
      let second = one_key key other s1 ok (sets_other s1) in
      let undone = put_back x key (lookup_env key s) (setenv key other s1).1 in
      rw (first, second, set_now key value s (sets s)) (set_now key value undone (sets undone))
  overlapped_renewals_leak false key value other s ok sets sets_other =
      let s1 = (setenv key value s).1 in
      let first = one_key key value s ok (sets s) in
      let second = one_key key other s1 ok (sets_other s1) in
      let s3 = put_back x key (lookup_env key s1) (setenv key other s1).1 in
      rw (first, second) (put_back_now key s s3 (lookup_env key s) refl)
