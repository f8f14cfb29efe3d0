-- ===== src/Certs/Leak.antt =====
-- What a refused provider's configuration leaves behind (common/legocmd/lego.go).
use xray_r4u.Base.{
  ◌≡◌, refl, true, false, Option, none, some, List, [], ◌∷◌, ◌++◌, Bytes, bytes_eq, bytes_beq_iff,
  arith, inl, inr, Bool-cases,
}
use xray_r4u.GoMap.{Map, IsMap, lookup}
use xray_r4u.Certs.Keys.{allowed_dns_env_key}
use xray_r4u.Certs.System.{System}
use xray_r4u.Certs.Environment.{Prev, Applied, unsafe_key, saved_now, apply_each, apply_dns_env}
use xray_r4u.Certs.Issue.{Patterns, validate_cert_inputs, obtain, dns_args, with_dns_env, dns_cert}
use xray_r4u.Certs.Restore.{all_allowed}

module _ (x : System) where
  open x use {State, lookup_env, setenv}

  -- The system takes each variable of a list, wherever it is set.
  abbrev pub Accepts : Map Bytes Bytes → Type 0
  Accepts [] = Unit {0}
  Accepts ((key, value) ∷ env) = ((s : State) → (setenv key value s).0 ≡ true) × Accepts env

  abbrev pub or_kept : Option Bytes → Option Bytes → Option Bytes
  or_kept none old = old
  or_kept (some value) old = some value

  apply_each-leaks :
      (env : Map Bytes Bytes) (bad value : Bytes) (rest : Map Bytes Bytes) (saved : List Prev)
      (s : State) (j : Bytes)
      → IsMap env
      → all_allowed env ≡ true
      → Accepts env
      → allowed_dns_env_key bad ≡ false
      → let r = apply_each x (env ++ (bad, value) ∷ rest) saved s in
        (r.0 ≡ unsafe_key) × (lookup_env j r.1 ≡ or_kept (lookup j env) (lookup_env j s))
  unfolding apply_each lookup
  apply_each-leaks [] bad value rest saved s j m ok acc h = rw h (refl, refl)
  apply_each-leaks ((key, v) ∷ env) bad value rest saved s j m ok acc h =
      elim (Bool-cases (allowed_dns_env_key key)) [
        | inr no_key ↦ absurd (ground arith)
        | inl yes_key ↦ ground (
          arith,
          acc.0 s,
          x.lookup_env-setenv key v j s,
          bytes_beq_iff key j,
          apply_each-leaks env bad value rest (saved_now x key s ∷ saved) (setenv key v s).1 j m.1,
        )
      ]

  with_dns_env-unsafe :
      (re : Patterns) (body : State → Option (Bytes × Bytes) × State) (r : Applied × State)
      → r.0 ≡ unsafe_key
      → with_dns_env re x body r ≡ (none, r.1)
  with_dns_env-unsafe re body (Applied.cleanup saved, s) e = cc
  with_dns_env-unsafe re body (Applied.not_set, s) e = refl
  with_dns_env-unsafe re body (unsafe_key, s) e = refl

  -- A configuration with a key that is not allowed behind keys that are, and that the system takes,
  -- is refused, and those in front stay in the environment of the process.
  pub refused_dns_env_stays :
      (re : Patterns) (domain email provider : Bytes) (env : Map Bytes Bytes) (bad value : Bytes)
      (rest : Map Bytes Bytes) (s : State) (j : Bytes)
      → validate_cert_inputs re domain email provider true ≡ true
      → IsMap env
      → all_allowed env ≡ true
      → Accepts env
      → allowed_dns_env_key bad ≡ false
      → let r = dns_cert re x domain email provider (env ++ (bad, value) ∷ rest) s in
        (r.0 ≡ none) × (lookup_env j r.1 ≡ or_kept (lookup j env) (lookup_env j s))
  unfolding dns_cert apply_dns_env
  refused_dns_env_stays re domain email provider env bad value rest s j valid m ok acc h =
      let (refused, kept) = apply_each-leaks env bad value rest [] s j m ok acc h in
      let body = obtain re x (dns_args re x domain email provider) domain in
      let applied = apply_each x (env ++ (bad, value) ∷ rest) [] s in
      rw (valid, with_dns_env-unsafe re body applied refused) (refl, kept)
