-- ===== src/Controller/Builder/Tests.antt =====
-- Runs of the builders, on a core that takes what it is given.
use xray_r4u.Base.{◌≡◌, ◌≢◌, refl, false, Option, none, some, [], Bytes, codes, pos}
use xray_r4u.Text.{trim_space, trim_left, trim_right}
use xray_r4u.Api.{NodeInfo}
use xray_r4u.AnyTls.Fallback.{validate_fallback_addr}
use xray_r4u.Controller.Stream.{
  resolve_xhttp_host_path_mode, resolve_transport, resolve_security, normalize_transport_protocol,
  normalize_security_type, xhttp_path,
}
use xray_r4u.Panel.Tests.{test_json, node_answer, marshalled}
use xray_r4u.Controller.Tests.{
  config, node_on, forcing, forced_node, forced_node_runs, no_local_security,
}
use xray_r4u.Controller.Forced.{enable_reality_refused}
use xray_r4u.Controller.Builder.Settings.{BuilderConfig, CertConfig, SplitHttp, ok}
use xray_r4u.Controller.Builder.Tls.{build_tls_settings, get_cert_file}
use xray_r4u.Controller.Builder.Xhttp.{build_xhttp_settings}
use xray_r4u.Controller.Builder.Streams.{
  StreamCore, build_stream_setting, build_transport, build_security,
}
use xray_r4u.Controller.Builder.Inbound.{
  Detour, HandlerCore, inbound_builder, build_any_tls_handler_config,
}
use xray_r4u.Controller.Builder.Built.{IsGuarded, inbound_builder-IsGuarded}

abbrev no_literal : Bytes → Option Bytes
no_literal host = none

abbrev core : StreamCore Bytes
core = record {
  network_type = λ name. some name;
  no_others = [];
  parse_extra = λ text. none;
  parse_reality = λ text. none;
  certs = record { dns_cert = λ c. none; http_cert = λ c. none };
}

-- A handler is its tag.
abbrev handlers : HandlerCore Bytes Bytes Bytes
handlers = record {
  build_detour = λ d. some d.tag;
  build_receiver = λ r. some r.listen;
  handler = λ tag r proxy. tag;
}

abbrev cert : CertConfig
cert = record {
  cert_mode = codes "file";
  reject_unknown_sni = false;
  cert_domain = [];
  cert_file = codes "c.pem";
  key_file = codes "k.pem";
  provider = [];
  email = [];
  dns_env = [];
  alpn = [];
  min_version = [];
  max_version = [];
  curve_preferences = [];
  enable_session_resumption = false;
  ech_server_keys = [];
}

abbrev files : BuilderConfig
files = record {
  local = record config { security = codes "tls" };
  xhttp_more = record { headers = []; no_sse_header = false; no_grpc_header = false; extra = [] };
  cert = some cert;
  send_ip = [];
  enable_dns = false;
  dns_type = [];
  disable_sniffing = false;
  fallbacks = none;
  any_tls_padding_scheme = [];
  any_tls_fallback = [];
}

abbrev any_tls_node : NodeInfo
any_tls_node = record (node_on (pos 443)) { node_type = codes "anytls" }

any_tls_built :
    inbound_builder no_literal handlers core files any_tls_node (codes "t") ≡ ok (codes "t")
unfolding inbound_builder build_stream_setting build_transport build_security build_tls_settings
    get_cert_file build_any_tls_handler_config resolve_transport resolve_security
    normalize_transport_protocol normalize_security_type trim_space trim_left trim_right
    validate_fallback_addr build_xhttp_settings
any_tls_built = refl

same_tag : (d : Detour Bytes) (i : Bytes) → some d.tag ≡ some i → i ≡ d.tag
same_tag d i e = cc

inbound_builder-IsGuarded_example :
    IsGuarded no_literal handlers
      (λ i. i)
      same_tag
      (λ tag r proxy. refl)
      files
      any_tls_node
      (codes "t")
      (codes "t")
inbound_builder-IsGuarded_example =
    inbound_builder-IsGuarded no_literal handlers (λ i. i) same_tag (λ tag r proxy. refl) core files
      any_tls_node (codes "t") (codes "t") any_tls_built

abbrev cdn_node : NodeInfo
cdn_node = record (node_on (pos 443)) { path = codes "vless"; host = codes "cdn.test" }

abbrev cdn_settings : SplitHttp Bytes
cdn_settings = record {
  host = codes "cdn.test";
  path = codes "/vless";
  mode = codes "auto";
  headers = [];
  no_sse_header = false;
  no_grpc_header = false;
  others = [];
}

cdn_built : build_xhttp_settings Bytes [] core.parse_extra files cdn_node ≡ ok cdn_settings
unfolding build_xhttp_settings resolve_xhttp_host_path_mode xhttp_path trim_space trim_left
    trim_right
cdn_built = refl

enable_reality_refused_example :
    inbound_builder no_literal handlers core
      (record files { local = config })
      forced_node
      (codes "t")
    ≢ ok (codes "t")
enable_reality_refused_example =
    enable_reality_refused test_json marshalled no_literal handlers core
      (record files { local = config }) forcing node_answer forced_node (codes "t") (codes "t") refl
      refl refl no_local_security forced_node_runs
