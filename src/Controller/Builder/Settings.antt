-- ===== src/Controller/Builder/Settings.antt =====
-- The data of the builders in service/controller: the fields of `Config` that they read beside those
-- of Controller/Stream, the settings that they make, and their errors.
use xray_r4u.Base.{ℕ, ◌-◌, ◌%◌, ◌^◌, Bool, Option, List, Bytes, ℤ, pos, negsuc}
use xray_r4u.Controller.Stream.{Config, RealityKnobs}

pub record CertConfig : Type 0 where
  pub cert_mode : Bytes
  pub reject_unknown_sni : Bool
  pub cert_domain : Bytes
  pub cert_file : Bytes
  pub key_file : Bytes
  pub provider : Bytes
  pub email : Bytes
  pub dns_env : List (Bytes × Bytes)
  pub alpn : List Bytes
  pub min_version : Bytes
  pub max_version : Bytes
  pub curve_preferences : List Bytes
  pub enable_session_resumption : Bool
  pub ech_server_keys : Bytes

pub record FallBackConfig : Type 0 where
  pub sni : Bytes
  pub alpn : Bytes
  pub path : Bytes
  pub dest : Bytes
  pub proxy_protocol_ver : ℕ

-- The fields of `XHTTPConfig` beside its host, path and mode.
pub record XhttpMore : Type 0 where
  pub headers : List (Bytes × Bytes)
  pub no_sse_header : Bool
  pub no_grpc_header : Bool
  pub extra : Bytes

-- A nil slice of fallbacks is `none`.
pub record BuilderConfig : Type 0 where
  pub local : Config
  pub xhttp_more : XhttpMore
  pub cert : Option CertConfig
  pub send_ip : Bytes
  pub enable_dns : Bool
  pub dns_type : Bytes
  pub disable_sniffing : Bool
  pub fallbacks : Option (List FallBackConfig)
  pub any_tls_padding_scheme : Bytes
  pub any_tls_fallback : Bytes

-- `conf.TLSConfig`, with its one certificate.
pub record TlsSettings : Type 0 where
  pub cert_file : Bytes
  pub key_file : Bytes
  pub ocsp_stapling : ℕ
  pub reject_unknown_sni : Bool
  pub min_version : Bytes
  pub max_version : Bytes
  pub enable_session_resumption : Bool
  pub ech_server_keys : Bytes
  pub alpn : List Bytes
  pub curves : List Bytes

-- `conf.SplitHTTPConfig`; its other fields are of a type that the program does not look into.
pub record SplitHttp (E : Type 0) : Type 0 where
  pub host : Bytes
  pub path : Bytes
  pub mode : Bytes
  pub headers : List (Bytes × Bytes)
  pub no_sse_header : Bool
  pub no_grpc_header : Bool
  pub others : E

pub record Reality (E : Type 0) : Type 0 where
  pub knobs : RealityKnobs
  pub others : E

-- The settings of the network types that the program sets; the core's own for any other.
pub data Transport (E : Type 0) : Type 0 where
  tcp : Bool → Bytes → Transport E
  websocket : Bool → Bytes → Bytes → Transport E
  split_http : SplitHttp E → Transport E
  grpc : Bytes → Transport E
  by_core : Transport E

pub data StreamSecurity (E : Type 0) : Type 0 where
  plain : StreamSecurity E
  tls : TlsSettings → StreamSecurity E
  reality : Reality E → StreamSecurity E

-- `conf.StreamConfig`, and whether its socket takes the PROXY protocol.
pub record Stream (E : Type 0) : Type 0 where
  pub network : Bytes
  pub transport : Transport E
  pub security : StreamSecurity E
  pub socket_accepts_proxy : Bool

pub data BuildError : Type 0 where
  bad_transport : BuildError
  no_xhttp_path : BuildError
  bad_xhttp_extra : BuildError
  no_reality_settings : BuildError
  bad_reality_settings : BuildError
  unsupported_security : BuildError
  no_cert_config : BuildError
  no_cert_mode : BuildError
  no_cert_files : BuildError
  cert_failed : BuildError
  unsupported_cert_mode : BuildError
  encryption_with_fallback : BuildError
  no_fallbacks : BuildError
  no_dest : BuildError
  insecure_any_tls : BuildError
  bad_any_tls_fallback : BuildError
  core_build_failed : BuildError

pub data Result (A : Type 0) : Type 0 where
  ok : A → Result A
  fail : BuildError → Result A

abbrev pub then_build : {A B : Type 0} → Result A → (A → Result B) → Result B
then_build (ok a) f = f a
then_build (fail err) f = fail err

abbrev pub or_fail : {A : Type 0} → BuildError → Option A → Result A
or_fail err Option.none = fail err
or_fail err (Option.some a) = ok a

-- Go's conversion of an int.
abbrev pub uint32 : ℤ → ℕ
uint32 (pos n) = n % 2 ^ 32
uint32 (negsuc n) = 2 ^ 32 - 1 - n % 2 ^ 32
