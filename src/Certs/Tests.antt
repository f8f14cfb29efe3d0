-- ===== src/Certs/Tests.antt =====
-- Runs of the certificates' code, on a system with one folder of certificates.
use xray_r4u.Base.{
  ◌≡◌, refl, Bool, true, false, none, some, [], ◌∷◌, ◌++◌, Bytes, codes, bytes_eq, inl, arith,
}
use xray_r4u.GoMap.{Map, IsMap, lookup, insert, delete, lookup-insert, lookup-delete}
use xray_r4u.Certs.Keys.{allowed_dns_env_key}
use xray_r4u.Certs.System.{System}
use xray_r4u.Certs.Environment.{apply_dns_env}
use xray_r4u.Certs.Issue.{Patterns, validate_cert_inputs, key_path, cert_path, dns_cert, renew_cert}
use xray_r4u.Certs.Restore.{dns_env_restored}
use xray_r4u.Certs.Guard.{IsProtected, apply_dns_env-protects}
use xray_r4u.Certs.Leak.{or_kept, refused_dns_env_stays}
use xray_r4u.Certs.Overlap.{overlapped, overlapped_renewals_leak}
use xray_r4u.Certs.Served.{lego, dns_tls_settings_served}
use xray_r4u.Controller.Builder.Settings.{CertConfig, TlsSettings, ok}
use xray_r4u.Controller.Builder.Tls.{tls_settings_of, build_tls_settings}

-- The variables, and whether the certificates have been obtained.
abbrev host : System
host = record {
  State = Map Bytes Bytes × Bool;
  lookup_env = λ k s. lookup k s.0;
  setenv = λ k v s. (true, (insert k v s.0, s.1));
  unsetenv = λ k s. (delete k s.0, s.1);
  exists = λ p s. s.1;
  run = λ args s. (true, (s.0, true));
  in_certificates = λ name. codes "/etc/certificates/" ++ name;
  abs = λ p. p;
  lookup_env-setenv = λ k v j s done. lookup-insert k j v s.0;
  lookup_env-failed_setenv = λ k v j s failed. absurd (ground arith);
  lookup_env-unsetenv = λ k j s. lookup-delete k j s.0;
  setenv-accepts = λ k v s t e. refl;
  exists-setenv = λ k v p s. refl;
  exists-unsetenv = λ k p s. refl;
  lookup_env-run = λ args j s. refl;
}

abbrev anything : Patterns
anything = record { domain = λ s. true; email = λ s. true; provider = λ s. true }

abbrev before : Map Bytes Bytes × Bool
before = ((codes "CF_API_KEY", codes "old") ∷ (codes "LD_PRELOAD", codes "a.so") ∷ [], false)

abbrev domain : Bytes
domain = codes "a.io"

abbrev email : Bytes
email = codes "me@a.io"

abbrev cloudflare : Bytes
cloudflare = codes "cloudflare"

abbrev tokens : Map Bytes Bytes
tokens = (codes "CF_API_KEY", codes "new") ∷ (codes "CF_API_EMAIL", codes "me") ∷ []

lego_key_allowed : allowed_dns_env_key (codes "lego_x y") ≡ true
unfolding allowed_dns_env_key
lego_key_allowed = refl

dns_env_restored_example :
    (lookup (codes "CF_API_KEY") (dns_cert anything host domain email cloudflare tokens before).1.0
      ≡ lookup (codes "CF_API_KEY") before.0)
    × (lookup
          (codes "CF_API_KEY")
          (renew_cert anything host domain email (codes "dns") cloudflare tokens before).1.0
        ≡ lookup (codes "CF_API_KEY") before.0)
unfolding allowed_dns_env_key
dns_env_restored_example =
    dns_env_restored host anything domain email (codes "dns") cloudflare tokens before
      (codes "CF_API_KEY") refl

preload-IsProtected : IsProtected (codes "LD_PRELOAD")
preload-IsProtected = inl (codes "PRELOAD", refl)

apply_dns_env-protects_example :
    lookup (codes "LD_PRELOAD") (apply_dns_env host tokens before).1.0
    ≡ lookup (codes "LD_PRELOAD") before.0
apply_dns_env-protects_example =
    apply_dns_env-protects host tokens before (codes "LD_PRELOAD") preload-IsProtected

inputs_pass : validate_cert_inputs anything domain email cloudflare true ≡ true
unfolding validate_cert_inputs
inputs_pass = refl

tokens-IsMap : IsMap tokens
unfolding lookup
tokens-IsMap = (refl, (refl, tt))

refused_dns_env_stays_example :
    let r =
      dns_cert anything host domain email cloudflare
        (tokens ++ (codes "LD_PRELOAD", codes "b.so") ∷ [])
        before in
    (r.0 ≡ none)
    × (lookup (codes "CF_API_KEY") r.1.0
        ≡ or_kept host (lookup (codes "CF_API_KEY") tokens) (lookup (codes "CF_API_KEY") before.0))
unfolding allowed_dns_env_key
refused_dns_env_stays_example =
    refused_dns_env_stays host anything domain email cloudflare tokens (codes "LD_PRELOAD")
      (codes "b.so") [] before (codes "CF_API_KEY") inputs_pass tokens-IsMap refl
      (λ s. refl, (λ s. refl, tt)) refl

dns_obtained :
    (dns_cert anything host domain email cloudflare tokens before).0
    ≡ some (codes "/etc/certificates/a.io.crt", codes "/etc/certificates/a.io.key")
unfolding dns_cert allowed_dns_env_key insert delete lookup
dns_obtained = refl

overlapped_renewals_leak_example :
    lookup
      (codes "CF_API_KEY")
      (overlapped host true
        ((codes "CF_API_KEY", codes "a") ∷ [])
        ((codes "CF_API_KEY", codes "b") ∷ [])
        before).0
    ≡ some (codes "a")
unfolding allowed_dns_env_key
overlapped_renewals_leak_example =
    overlapped_renewals_leak host true (codes "CF_API_KEY") (codes "a") (codes "b") before refl
      (λ s. refl) (λ s. refl)

abbrev by_cloudflare : CertConfig
by_cloudflare = record {
  cert_mode = codes "dns";
  reject_unknown_sni = true;
  cert_domain = domain;
  cert_file = [];
  key_file = [];
  provider = cloudflare;
  email = email;
  dns_env = tokens;
  alpn = [];
  min_version = codes "1.3";
  max_version = [];
  curve_preferences = [];
  enable_session_resumption = false;
  ech_server_keys = [];
}

abbrev cloudflare_settings : TlsSettings
cloudflare_settings =
    tls_settings_of by_cloudflare
      (codes "/etc/certificates/a.io.crt", codes "/etc/certificates/a.io.key")

cloudflare_built :
    build_tls_settings (lego host anything before) (some by_cloudflare) ≡ ok cloudflare_settings
unfolding build_tls_settings dns_cert allowed_dns_env_key insert delete lookup
cloudflare_built = refl

dns_tls_settings_served_example :
    let s' = (dns_cert anything host domain email cloudflare tokens before).1 in
    (cloudflare_settings.cert_file ≡ codes "/etc/certificates/a.io.crt")
    × ((cloudflare_settings.key_file ≡ codes "/etc/certificates/a.io.key")
        × ((host.exists (cert_path anything host domain) s' ≡ true)
            × (host.exists (key_path anything host domain) s' ≡ true)))
dns_tls_settings_served_example =
    dns_tls_settings_served host anything by_cloudflare before cloudflare_settings refl
      cloudflare_built
