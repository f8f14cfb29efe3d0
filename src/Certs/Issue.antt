-- ===== src/Certs/Issue.antt =====
-- `DNSCert`, `HTTPCert` and `RenewCert` of common/legocmd/lego.go. The three patterns are arguments,
-- as Go's regexp matches them.
use xray_r4u.Base.{
  Bool, true, false, Option, none, some, List, [], ◌∷◌, ◌++◌, Bytes, bytes_beq, if◌then◌else◌, ◌&&◌,
  not, codes,
}
use xray_r4u.GoMap.{Map}
use xray_r4u.Text.{is_empty, trim_space}
use xray_r4u.Certs.System.{System}
use xray_r4u.Certs.Environment.{Applied, cleanup, apply_dns_env, restore}

-- `reDomain`, `reEmail` and `reProvider`.
pub record Patterns : Type 0 where
  pub domain : Bytes → Bool
  pub email : Bytes → Bool
  pub provider : Bytes → Bool

abbrev pub fits : (Bytes → Bool) → Bytes → Bool
fits pattern text = not (is_empty text) && pattern text

module _ (re : Patterns) where
  -- True is a nil error. The caller goes on with the texts as they were given.
  unfoldable pub validate_cert_inputs : Bytes → Bytes → Bytes → Bool → Bool
  unfolding trim_space
  validate_cert_inputs domain email provider need_provider =
      if not (fits re.domain (trim_space domain))
      then false
      else if not (fits re.email (trim_space email))
      then false
      else if need_provider
      then fits re.provider (trim_space provider)
      else true

  module _ (x : System) where
    open x use {State, exists, run, in_certificates, abs}

    abbrev pub key_path : Bytes → Bytes
    key_path domain = in_certificates (domain ++ codes ".key")

    abbrev pub cert_path : Bytes → Bytes
    cert_path domain = in_certificates (domain ++ codes ".crt")

    -- The certificate's file and the key's; `none` is an error.
    unfoldable pub check_certfile : Bytes → State → Option (Bytes × Bytes)
    check_certfile domain s =
        if not (exists (key_path domain) s)
        then none
        else if not (exists (cert_path domain) s)
        then none
        else some (abs (cert_path domain), abs (key_path domain))

    -- The command runs, and then the files must be there.
    unfoldable pub run_lego : List Bytes → Bytes → State → Option (Bytes × Bytes) × State
    unfolding check_certfile
    run_lego args domain s =
        let (done, s') = run args s in
        if not done then (none, s') else (check_certfile domain s', s')

    abbrev pub or_run :
        List Bytes → Bytes → State → Option (Bytes × Bytes) → Option (Bytes × Bytes) × State
    or_run args domain s (some files) = (some files, s)
    or_run args domain s none = run_lego args domain s

    -- Without the files the command runs.
    unfoldable pub obtain : List Bytes → Bytes → State → Option (Bytes × Bytes) × State
    unfolding check_certfile run_lego
    obtain args domain s = or_run args domain s (check_certfile domain s)

    -- `defer cleanup()` around a body.
    abbrev pub with_dns_env :
        (State → Option (Bytes × Bytes) × State) → Applied × State → Option (Bytes × Bytes) × State
    with_dns_env body (cleanup saved, s) = let (files, s') = body s in (files, restore x saved s')
    with_dns_env body (_, s) = (none, s)

    abbrev pub common_args : Bytes → Bytes → List Bytes → List Bytes
    common_args domain email rest =
        codes "lego" ∷ codes "-a" ∷ codes "-d" ∷ domain ∷ codes "-m" ∷ email ∷ rest

    abbrev pub dns_args : Bytes → Bytes → Bytes → List Bytes
    dns_args domain email provider =
        common_args domain email (codes "--dns" ∷ provider ∷ codes "run" ∷ [])

    abbrev pub renew_args : List Bytes
    renew_args = codes "renew" ∷ codes "--days" ∷ codes "30" ∷ []

    unfoldable pub dns_cert :
        Bytes → Bytes → Bytes → Map Bytes Bytes → State → Option (Bytes × Bytes) × State
    unfolding validate_cert_inputs apply_dns_env obtain
    dns_cert domain email provider env s =
        if not (validate_cert_inputs domain email provider true)
        then (none, s)
        else with_dns_env (obtain (dns_args domain email provider) domain) (apply_dns_env x env s)

    unfoldable pub http_cert : Bytes → Bytes → State → Option (Bytes × Bytes) × State
    unfolding validate_cert_inputs obtain
    http_cert domain email s =
        let args = common_args domain email (codes "--http" ∷ codes "run" ∷ []) in
        if not (validate_cert_inputs domain email [] false) then (none, s) else obtain args domain s

    unfoldable pub renew_cert :
        Bytes → Bytes → Bytes → Bytes → Map Bytes Bytes → State → Option (Bytes × Bytes) × State
    unfolding validate_cert_inputs apply_dns_env run_lego
    renew_cert domain email cert_mode provider env s =
        let needs_provider = bytes_beq cert_mode (codes "dns") in
        let http_args = common_args domain email (codes "--http" ∷ renew_args) in
        let dns_args = common_args domain email (codes "--dns" ∷ provider ∷ renew_args) in
        if not (validate_cert_inputs domain email provider needs_provider)
        then (none, s)
        else if bytes_beq cert_mode (codes "http")
        then run_lego http_args domain s
        else if bytes_beq cert_mode (codes "dns")
        then with_dns_env (run_lego dns_args domain) (apply_dns_env x env s)
        else (none, s)
