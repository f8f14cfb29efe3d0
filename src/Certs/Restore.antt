-- ===== src/Certs/Restore.antt =====
-- The environment after a call of common/legocmd/lego.go.
use xray_r4u.Base.{
  ◌≡◌, refl, ◌∙◌, Bool, true, false, Option, List, [], ◌∷◌, Bytes, bytes_beq, bytes_beq_iff,
  if◌then◌else◌, ◌||◌, arith, inl, inr, Bool-cases, Option-cases, codes,
}
use xray_r4u.GoMap.{Map}
use xray_r4u.Certs.Keys.{allowed_dns_env_key}
use xray_r4u.Certs.System.{System}
use xray_r4u.Certs.Environment.{
  Prev, Applied, cleanup, unsafe_key, not_set, put_back, restore, saved_now, apply_each,
  apply_dns_env,
}
use xray_r4u.Certs.Issue.{
  Patterns, validate_cert_inputs, obtain, run_lego, with_dns_env, dns_cert, renew_cert, dns_args,
  common_args, renew_args,
}

-- Every key of the configuration may be set.
abbrev pub all_allowed : Map Bytes Bytes → Bool
all_allowed [] = true
all_allowed ((key, value) ∷ env) =
    let rest = all_allowed env in if allowed_dns_env_key key then rest else false

abbrev is_saved : Bytes → List Prev → Bool
is_saved j [] = false
is_saved j (p ∷ saved) = bytes_beq p.key j || is_saved j saved

module _ (x : System) where
  open x use {State, lookup_env, setenv}

  -- Two environments hold the same variables.
  abbrev pub SameEnv : State → State → Type 0
  SameEnv s t = (j : Bytes) → lookup_env j s ≡ lookup_env j t

  abbrev AgreeOff : List Prev → State → State → Type 0
  AgreeOff saved t s = (j : Bytes) → is_saved j saved ≡ false → lookup_env j t ≡ lookup_env j s

  -- The list undoes what was done since a state, whatever became of the saved keys.
  record IsUndo (saved : List Prev) (before now : State) : Type 0 where
    outside : AgreeOff saved now before
    undoes : (t : State) → AgreeOff saved t before → SameEnv (restore x saved t) before

  put_back-saved :
      (key j : Bytes) (s t : State)
      → lookup_env j (put_back x key (lookup_env key s) t)
        ≡ (if bytes_beq key j then lookup_env key s else lookup_env j t)
  put_back-saved key j s t = elim (Option-cases (lookup_env key s)) [
    | inl e ↦ rw e (x.lookup_env-unsetenv key j t)
    | inr (v, e) ↦ rw e (x.lookup_env-setenv key v j t (x.setenv-accepts key v s t e))
  ]

  no_saved-IsUndo : (s : State) → IsUndo [] s s
  unfolding restore
  no_saved-IsUndo s = record { outside = λ j e. refl; undoes = λ t h j. h j refl }

  saved_now-IsUndo :
      (key value : Bytes) (saved : List Prev) (before now : State)
      → (setenv key value now).0 ≡ true
      → IsUndo saved before now
      → IsUndo (saved_now x key now ∷ saved) before (setenv key value now).1
  unfolding restore
  saved_now-IsUndo key value saved before now done u = record {
    outside = λ j e. ground (arith, x.lookup_env-setenv key value j now done, u.outside j);
    undoes = λ t h.
        u.undoes (put_back x key (lookup_env key now) t) (λ j e.
          ground (arith, put_back-saved key j now t, u.outside j, h j, bytes_beq_iff key j));
  }

  -- How the loop ends: with a list that undoes it, with nothing changed, or at an unsafe key.
  abbrev Settles : Map Bytes Bytes → State → Applied × State → Type 0
  Settles env before (cleanup saved, s) = IsUndo saved before s
  Settles env before (not_set, s) = SameEnv s before
  Settles env before (unsafe_key, s) = all_allowed env ≡ false

  later-Settles :
      (key value : Bytes) (env : Map Bytes Bytes) (before : State) (r : Applied × State)
      → Settles env before r
      → Settles ((key, value) ∷ env) before r
  later-Settles key value env before (cleanup saved, s) h = h
  later-Settles key value env before (not_set, s) h = h
  later-Settles key value env before (unsafe_key, s) h = ground arith

  apply_each-Settles :
      (env : Map Bytes Bytes) (saved : List Prev) (before now : State)
      → IsUndo saved before now
      → Settles env before (apply_each x env saved now)
  unfolding apply_each
  apply_each-Settles [] saved before now u = u
  apply_each-Settles ((key, value) ∷ env) saved before now u =
      let next = (setenv key value now).1 in
      elim (Bool-cases (allowed_dns_env_key key)) [
        | inr bad ↦ rw bad (rw bad refl)
        | inl ok ↦ elim (Bool-cases (setenv key value now).0) [
          | inl done ↦
              rw (ok, done)
                (later-Settles key value env before
                  (apply_each x env (saved_now x key now ∷ saved) next)
                  (apply_each-Settles env (saved_now x key now ∷ saved) before next
                    (saved_now-IsUndo key value saved before now done u)))
          | inr failed ↦
              rw (ok, failed)
                (u.undoes next
                  (λ j e. x.lookup_env-failed_setenv key value j now failed ∙ u.outside j e))
        ]
      ]

  module _ (re : Patterns) where
    run_lego-SameEnv :
        (args : List Bytes) (domain : Bytes) (s : State) → SameEnv (run_lego re x args domain s).1 s
    unfolding run_lego
    run_lego-SameEnv args domain s j = ground (arith, x.lookup_env-run args j s)

    obtain-SameEnv :
        (args : List Bytes) (domain : Bytes) (s : State) → SameEnv (obtain re x args domain s).1 s
    unfolding obtain
    obtain-SameEnv args domain s j = ground (arith, run_lego-SameEnv args domain s j)

    with_dns_env-SameEnv :
        (env : Map Bytes Bytes) (before : State) (r : Applied × State)
        (body : State → Option (Bytes × Bytes) × State)
        → ((t : State) → SameEnv (body t).1 t)
        → all_allowed env ≡ true
        → Settles env before r
        → SameEnv (with_dns_env re x body r).1 before
    with_dns_env-SameEnv env before (cleanup saved, s) body keeps ok u =
        u.undoes (body s).1 (λ j e. keeps s j ∙ u.outside j e)
    with_dns_env-SameEnv env before (not_set, s) body keeps ok h = h
    with_dns_env-SameEnv env before (unsafe_key, s) body keeps ok h = cc

    dns_cert-SameEnv :
        (domain email provider : Bytes) (env : Map Bytes Bytes) (s : State)
        → all_allowed env ≡ true
        → SameEnv (dns_cert re x domain email provider env s).1 s
    unfolding dns_cert apply_dns_env
    dns_cert-SameEnv domain email provider env s ok j =
        let args = dns_args re x domain email provider in
        elim (Bool-cases (validate_cert_inputs re domain email provider true)) [
          | inr bad ↦ rw bad refl
          | inl valid ↦ rw valid (
              with_dns_env-SameEnv env s (apply_each x env [] s) (obtain re x args domain)
                (obtain-SameEnv args domain) ok (apply_each-Settles env [] s s (no_saved-IsUndo s))
                j)
        ]

    renew_cert-SameEnv :
        (domain email mode provider : Bytes) (env : Map Bytes Bytes) (s : State)
        → all_allowed env ≡ true
        → SameEnv (renew_cert re x domain email mode provider env s).1 s
    unfolding renew_cert apply_dns_env
    renew_cert-SameEnv domain email mode provider env s ok j =
        let http = common_args re x domain email (codes "--http" ∷ renew_args re x) in
        let dns = common_args re x domain email (codes "--dns" ∷ provider ∷ renew_args re x) in
        let settled =
          with_dns_env-SameEnv env s (apply_each x env [] s) (run_lego re x dns domain)
            (run_lego-SameEnv dns domain) ok (apply_each-Settles env [] s s (no_saved-IsUndo s))
            j in
        let needs = bytes_beq mode (codes "dns") in
        elim (Bool-cases (validate_cert_inputs re domain email provider needs)) [
          | inr bad ↦ rw bad refl
          | inl valid ↦ rw valid (elim (Bool-cases (bytes_beq mode (codes "http"))) [
            | inl by_http ↦ rw by_http (run_lego-SameEnv http domain s j)
            | inr other ↦ rw other (elim (Bool-cases (bytes_beq mode (codes "dns"))) [
              | inl by_dns ↦ rw by_dns settled
              | inr unknown ↦ rw unknown refl
            ])
          ])
        ]

    -- To obtain or to renew a certificate by DNS leaves each variable of the environment as it was,
    -- whether this succeeds, is refused, or the system or lego fails at any point, as long as every
    -- key of the provider's configuration is allowed.
    pub dns_env_restored :
        (domain email mode provider : Bytes) (env : Map Bytes Bytes) (s : State) (j : Bytes)
        → all_allowed env ≡ true
        → (lookup_env j (dns_cert re x domain email provider env s).1 ≡ lookup_env j s)
          × (lookup_env j (renew_cert re x domain email mode provider env s).1 ≡ lookup_env j s)
    dns_env_restored domain email mode provider env s j ok = (
      dns_cert-SameEnv domain email provider env s ok j,
      renew_cert-SameEnv domain email mode provider env s ok j,
    )
