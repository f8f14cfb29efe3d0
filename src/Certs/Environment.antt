-- ===== src/Certs/Environment.antt =====
-- `applyDNSEnv` of common/legocmd/lego.go, with the cleanup that it returns.
use xray_r4u.Base.{Option, none, some, List, [], ◌∷◌, Bytes, if◌then◌else◌, not}
use xray_r4u.GoMap.{Map}
use xray_r4u.Certs.Keys.{allowed_dns_env_key}
use xray_r4u.Certs.System.{System}

-- `prev`; `none` is a key that was not set.
pub record Prev : Type 0 where
  pub key : Bytes
  pub val : Option Bytes

-- The cleanup is the list that it goes through, the latest key first.
pub data Applied : Type 0 where
  cleanup : List Prev → Applied
  unsafe_key : Applied
  not_set : Applied

module _ (x : System) where
  open x use {State, lookup_env, setenv, unsetenv}

  abbrev pub put_back : Bytes → Option Bytes → State → State
  put_back key none s = unsetenv key s
  put_back key (some val) s = (setenv key val s).1

  unfoldable pub restore : List Prev → State → State
  restore [] s = s
  restore (p ∷ saved) s = restore saved (put_back p.key p.val s)

  abbrev pub saved_now : Bytes → State → Prev
  saved_now key s = record { key = key; val = lookup_env key s }

  -- The loop of `applyDNSEnv`, in the map's order. A key that is refused leaves the others set.
  unfoldable pub apply_each : Map Bytes Bytes → List Prev → State → Applied × State
  unfolding restore
  apply_each [] saved s = (cleanup saved, s)
  apply_each ((key, value) ∷ env) saved s =
      let (done, s') = setenv key value s in
      let rest = apply_each env (saved_now key s ∷ saved) s' in
      if not (allowed_dns_env_key key)
      then (unsafe_key, s)
      else if done
      then rest
      else (not_set, restore saved s')

  unfoldable pub apply_dns_env : Map Bytes Bytes → State → Applied × State
  unfolding apply_each
  apply_dns_env env s = apply_each env [] s
