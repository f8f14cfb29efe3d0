-- ===== src/Certs/Served.antt =====
-- The TLS settings of an inbound (service/controller/inboundbuilder.go, stream_resolve.go) with the
-- certificates of common/legocmd/lego.go.
use xray_r4u.Base.{◌≡◌, true, Option, none, some, Bytes, codes, arith}
use xray_r4u.Controller.Builder.Settings.{
  CertConfig, TlsSettings, ok, cert_failed, then_build, or_fail,
}
use xray_r4u.Controller.Builder.Tls.{CertSource, get_cert_file, tls_settings_of, build_tls_settings}
use xray_r4u.Certs.System.{System}
use xray_r4u.Certs.Issue.{Patterns, key_path, cert_path, check_certfile, dns_cert, http_cert}
use xray_r4u.Certs.Obtained.{http_cert_after_dns}

module _ (x : System) (re : Patterns) where
  open x use {State, exists, abs}

  abbrev pub by_dns : CertConfig → State → Option (Bytes × Bytes) × State
  by_dns c s = dns_cert re x c.cert_domain c.email c.provider c.dns_env s

  abbrev pub by_http : CertConfig → State → Option (Bytes × Bytes) × State
  by_http c s = http_cert re x c.cert_domain c.email s

  -- What `getCertFile` calls, in a state of the system.
  abbrev pub lego : State → CertSource
  lego s = record { dns_cert = λ c. (by_dns c s).0; http_cert = λ c. (by_http c s).0 }

  from_files :
      (c : CertConfig) (found : Option (Bytes × Bytes)) (t : TlsSettings)
      → then_build (or_fail cert_failed found) (λ files. ok (tls_settings_of c files)) ≡ ok t
      → found ≡ some (t.cert_file, t.key_file)
  from_files c none t e = cc
  from_files c (some (cert, key)) t e = ground arith

  dns_settings :
      (source : CertSource) (c : CertConfig) (t : TlsSettings)
      → c.cert_mode ≡ codes "dns"
      → build_tls_settings source (some c) ≡ ok t
      → source.dns_cert c ≡ some (t.cert_file, t.key_file)
  unfolding build_tls_settings get_cert_file
  dns_settings source c t mode built = from_files c (source.dns_cert c) t (simp mode at built)

  check_certfile-there :
      (domain cert key : Bytes) (s : State)
      → check_certfile re x domain s ≡ some (cert, key)
      → (cert ≡ abs (cert_path re x domain))
        × ((key ≡ abs (key_path re x domain))
            × ((exists (cert_path re x domain) s ≡ true)
                × (exists (key_path re x domain) s ≡ true)))
  unfolding check_certfile
  check_certfile-there domain cert key s e = ground arith

  -- TLS settings that are built with a certificate by DNS name the certificate and the key of the
  -- domain in lego's folder, by their absolute paths, and both files are there when the settings are
  -- built.
  pub dns_tls_settings_served :
      (c : CertConfig) (s : State) (t : TlsSettings)
      → c.cert_mode ≡ codes "dns"
      → build_tls_settings (lego s) (some c) ≡ ok t
      → let s' = (by_dns c s).1 in
        (t.cert_file ≡ abs (cert_path re x c.cert_domain))
        × ((t.key_file ≡ abs (key_path re x c.cert_domain))
            × ((exists (cert_path re x c.cert_domain) s' ≡ true)
                × (exists (key_path re x c.cert_domain) s' ≡ true)))
  dns_tls_settings_served c s t mode built =
      check_certfile-there c.cert_domain t.cert_file t.key_file (by_dns c s).1
        (http_cert_after_dns x re c.cert_domain c.email c.provider c.dns_env s
          (t.cert_file, t.key_file) (dns_settings (lego s) c t mode built)).0
