-- ===== src/Certs/Obtained.antt =====
-- The files that common/legocmd/lego.go answers with.
use xray_r4u.Base.{
  ◌≡◌, refl, ◌∙◌, true, false, Option, none, some, List, [], ◌∷◌, Bytes, arith, inl, inr,
  Bool-cases, Option-cases,
}
use xray_r4u.GoMap.{Map}
use xray_r4u.Certs.System.{System}
use xray_r4u.Certs.Environment.{
  Prev, Applied, cleanup, unsafe_key, not_set, put_back, restore, apply_dns_env,
}
use xray_r4u.Certs.Issue.{
  Patterns, validate_cert_inputs, check_certfile, or_run, obtain, run_lego, with_dns_env, dns_cert,
  http_cert, dns_args,
}

module _ (x : System) (re : Patterns) where
  open x use {State, exists}

  put_back-exists :
      (key : Bytes) (val : Option Bytes) (p : Bytes) (s : State)
      → exists p (put_back x key val s) ≡ exists p s
  put_back-exists key none p s = x.exists-unsetenv key p s
  put_back-exists key (some val) p s = x.exists-setenv key val p s

  restore-exists :
      (saved : List Prev) (p : Bytes) (s : State) → exists p (restore x saved s) ≡ exists p s
  unfolding restore
  restore-exists [] p s = refl
  restore-exists (q ∷ saved) p s =
      restore-exists saved p (put_back x q.key q.val s) ∙ put_back-exists q.key q.val p s

  restore-check_certfile :
      (saved : List Prev) (domain : Bytes) (s : State)
      → check_certfile re x domain (restore x saved s) ≡ check_certfile re x domain s
  unfolding check_certfile
  restore-check_certfile saved domain s = simp (λ (p : Bytes). restore-exists saved p s)

  -- A pair of files that an answer gives is what `checkCertfile` finds after it.
  abbrev pub IsThere : Bytes → Option (Bytes × Bytes) × State → Type 0
  IsThere domain (none, s) = Unit {0}
  IsThere domain (some files, s) = check_certfile re x domain s ≡ some files

  found_of :
      (domain : Bytes) (r : Option (Bytes × Bytes) × State) (files : Bytes × Bytes)
      → r.0 ≡ some files
      → IsThere domain r
      → check_certfile re x domain r.1 ≡ some files
  found_of domain (none, s) files e h = cc
  found_of domain (some other, s) files e h = h ∙ e

  run_lego-IsThere :
      (args : List Bytes) (domain : Bytes) (s : State)
      → IsThere domain (run_lego re x args domain s)
  unfolding run_lego
  run_lego-IsThere args domain s =
      let s' = (x.run args s).1 in
      elim (Bool-cases (x.run args s).0) [
        | inr failed ↦ rw failed tt
        | inl done ↦ elim (Option-cases (check_certfile re x domain s')) [
          | inl e ↦ rw (done, e) tt
          | inr (files, e) ↦ rw (done, e) e
        ]
      ]

  or_run-IsThere :
      (args : List Bytes) (domain : Bytes) (s : State) (found : Option (Bytes × Bytes))
      → check_certfile re x domain s ≡ found
      → IsThere domain (or_run re x args domain s found)
  or_run-IsThere args domain s none e = run_lego-IsThere args domain s
  or_run-IsThere args domain s (some files) e = e

  obtain-IsThere :
      (args : List Bytes) (domain : Bytes) (s : State) → IsThere domain (obtain re x args domain s)
  unfolding obtain
  obtain-IsThere args domain s = or_run-IsThere args domain s (check_certfile re x domain s) refl

  restored-IsThere :
      (saved : List Prev) (domain : Bytes) (r : Option (Bytes × Bytes) × State)
      → IsThere domain r
      → IsThere domain (r.0, restore x saved r.1)
  restored-IsThere saved domain (none, s) h = tt
  restored-IsThere saved domain (some files, s) h = restore-check_certfile saved domain s ∙ h

  with_dns_env-IsThere :
      (domain : Bytes) (body : State → Option (Bytes × Bytes) × State) (r : Applied × State)
      → ((t : State) → IsThere domain (body t))
      → IsThere domain (with_dns_env re x body r)
  with_dns_env-IsThere domain body (cleanup saved, s) h =
      restored-IsThere saved domain (body s) (h s)
  with_dns_env-IsThere domain body (unsafe_key, s) h = tt
  with_dns_env-IsThere domain body (not_set, s) h = tt

  dns_cert-IsThere :
      (domain email provider : Bytes) (env : Map Bytes Bytes) (s : State)
      → IsThere domain (dns_cert re x domain email provider env s)
  unfolding dns_cert
  dns_cert-IsThere domain email provider env s =
      let args = dns_args re x domain email provider in
      elim (Bool-cases (validate_cert_inputs re domain email provider true)) [
        | inr bad ↦ rw bad tt
        | inl valid ↦ rw valid (
            with_dns_env-IsThere domain (obtain re x args domain) (apply_dns_env x env s)
              (obtain-IsThere args domain))
      ]

  without_provider :
      (domain email provider : Bytes)
      → validate_cert_inputs re domain email provider true ≡ true
      → validate_cert_inputs re domain email [] false ≡ true
  unfolding validate_cert_inputs
  without_provider domain email provider h = ground arith

  obtained_valid :
      (domain email provider : Bytes) (env : Map Bytes Bytes) (s : State) (files : Bytes × Bytes)
      → (dns_cert re x domain email provider env s).0 ≡ some files
      → validate_cert_inputs re domain email provider true ≡ true
  unfolding dns_cert
  obtained_valid domain email provider env s files e = ground arith

  -- After a certificate was obtained by DNS, with whatever environment, asking for one by HTTP
  -- answers with the same files, which are there, and runs nothing: the state stays as it is.
  pub http_cert_after_dns :
      (domain email provider : Bytes) (env : Map Bytes Bytes) (s : State) (files : Bytes × Bytes)
      → (dns_cert re x domain email provider env s).0 ≡ some files
      → let s' = (dns_cert re x domain email provider env s).1 in
        (check_certfile re x domain s' ≡ some files)
        × (http_cert re x domain email s' ≡ (some files, s'))
  unfolding http_cert obtain
  http_cert_after_dns domain email provider env s files e =
      let r = dns_cert re x domain email provider env s in
      let found : (check_certfile re x domain r.1 ≡ some files) =
        found_of domain r files e (dns_cert-IsThere domain email provider env s) in
      let valid =
        without_provider domain email provider
          (obtained_valid domain email provider env s files e) in
      (found, rw (valid, found) refl)
