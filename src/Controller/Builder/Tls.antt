-- ===== src/Controller/Builder/Tls.antt =====
-- `getCertFile` (service/controller/inboundbuilder.go) and `buildTLSSettings` (stream_resolve.go).
-- What obtains a certificate by DNS or HTTP is an argument; `none` is its error.
use xray_r4u.Base.{Option, none, some, List, [], ◌∷◌, Bytes, bytes_beq, if◌then◌else◌, ◌||◌, codes}
use xray_r4u.Text.{is_empty}
use xray_r4u.Controller.Builder.Settings.{
  CertConfig, TlsSettings, no_cert_config, no_cert_mode, no_cert_files, cert_failed,
  unsupported_cert_mode, Result, ok, fail, then_build, or_fail,
}

-- `legocmd.New` with `DNSCert` or `HTTPCert`.
pub record CertSource : Type 0 where
  pub dns_cert : CertConfig → Option (Bytes × Bytes)
  pub http_cert : CertConfig → Option (Bytes × Bytes)

unfoldable pub get_cert_file : CertSource → CertConfig → Result (Bytes × Bytes)
get_cert_file source c =
    if bytes_beq c.cert_mode (codes "file")
    then (if is_empty c.cert_file || is_empty c.key_file
        then fail no_cert_files
        else ok (c.cert_file, c.key_file))
    else if bytes_beq c.cert_mode (codes "dns")
    then or_fail cert_failed (source.dns_cert c)
    else if bytes_beq c.cert_mode (codes "http")
    then or_fail cert_failed (source.http_cert c)
    else fail unsupported_cert_mode

abbrev pub default_tls_pq_curves : List Bytes
default_tls_pq_curves = codes "X25519MLKEM768" ∷ codes "X25519" ∷ codes "P256" ∷ []

abbrev pub default_tls_alpn : List Bytes
default_tls_alpn = codes "h2" ∷ codes "http/1.1" ∷ []

abbrev pub or_default : List Bytes → List Bytes → List Bytes
or_default [] default = default
or_default (v ∷ vs) default = v ∷ vs

abbrev pub tls_settings_of : CertConfig → Bytes × Bytes → TlsSettings
tls_settings_of c (cert_file, key_file) = record {
  cert_file = cert_file;
  key_file = key_file;
  ocsp_stapling = 3600;
  reject_unknown_sni = c.reject_unknown_sni;
  min_version = c.min_version;
  max_version = c.max_version;
  enable_session_resumption = c.enable_session_resumption;
  ech_server_keys = c.ech_server_keys;
  alpn = or_default c.alpn default_tls_alpn;
  curves = or_default c.curve_preferences default_tls_pq_curves;
}

unfoldable pub build_tls_settings : CertSource → Option CertConfig → Result TlsSettings
unfolding get_cert_file
build_tls_settings source none = fail no_cert_config
build_tls_settings source (some c) =
    let cert = get_cert_file source c in
    if is_empty c.cert_mode || bytes_beq c.cert_mode (codes "none")
    then fail no_cert_mode
    else then_build cert (λ files. ok (tls_settings_of c files))
