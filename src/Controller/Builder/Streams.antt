-- ===== src/Controller/Builder/Streams.antt =====
-- `buildStreamSetting` (service/controller/inboundbuilder.go). The core's map of transport names to
-- network types and the decoding of the panel's REALITY settings are arguments.
use xray_r4u.Base.{Bool, Option, none, some, [], Bytes, bytes_beq, if◌then◌else◌, ◌&&◌, not, codes}
use xray_r4u.Text.{is_empty, trim_space}
use xray_r4u.Api.{NodeInfo}
use xray_r4u.Controller.Stream.{
  Config, XhttpConfig, resolve_transport, resolve_security, apply_reality_local_overrides, or_else,
}
use xray_r4u.Controller.Builder.Settings.{
  BuilderConfig, SplitHttp, Reality, Transport, StreamSecurity, Stream, bad_transport,
  no_reality_settings, bad_reality_settings, unsupported_security, Result, ok, fail, then_build,
  or_fail,
}
use xray_r4u.Controller.Builder.Tls.{CertSource, build_tls_settings}
use xray_r4u.Controller.Builder.Xhttp.{build_xhttp_settings}

-- What the builders take from xray-core and the network.
pub record StreamCore (E : Type 0) : Type 0 where
  pub network_type : Bytes → Option Bytes
  pub no_others : E
  pub parse_extra : Bytes → Option (SplitHttp E)
  pub parse_reality : Bytes → Option (Reality E)
  pub certs : CertSource

abbrev pub xhttp_host : Option XhttpConfig → Bytes
xhttp_host none = []
xhttp_host (some x) = trim_space x.host

abbrev pub xhttp_own_path : Option XhttpConfig → Bytes
xhttp_own_path none = []
xhttp_own_path (some x) = trim_space x.path

module _ {E : Type 0} (core : StreamCore E) where
  unfoldable pub build_transport : BuilderConfig → NodeInfo → Bytes → Result (Transport E)
  unfolding build_xhttp_settings
  build_transport config node_info type =
      let accepts = config.local.enable_proxy_protocol in
      let xhttp = build_xhttp_settings E core.no_others core.parse_extra config node_info in
      if bytes_beq type (codes "tcp")
      then ok (Transport.tcp accepts node_info.header)
      else if bytes_beq type (codes "websocket")
      then ok (
          Transport.websocket accepts (or_else (xhttp_own_path config.local.xhttp) node_info.path)
            (or_else (xhttp_host config.local.xhttp) node_info.host))
      else if bytes_beq type (codes "splithttp")
      then then_build xhttp (λ settings. ok (Transport.split_http settings))
      else if bytes_beq type (codes "grpc")
      then ok (Transport.grpc node_info.service_name)
      else ok Transport.by_core

  abbrev pub with_overrides : Config → Reality E → Reality E
  with_overrides config settings = record settings {
    knobs = apply_reality_local_overrides config settings.knobs;
  }

  unfoldable pub build_security : BuilderConfig → NodeInfo → Result (StreamSecurity E)
  unfolding build_tls_settings resolve_security
  build_security config node_info =
      let security = resolve_security config.local node_info in
      let settings = build_tls_settings core.certs config.cert in
      let parsed = or_fail bad_reality_settings (core.parse_reality node_info.reality_settings) in
      if bytes_beq security (codes "reality")
      then (if is_empty node_info.reality_settings
          then fail no_reality_settings
          else then_build parsed (λ r. ok (StreamSecurity.reality (with_overrides config.local r))))
      else if bytes_beq security (codes "tls")
      then then_build settings (λ t. ok (StreamSecurity.tls t))
      else if is_empty security
      then ok StreamSecurity.plain
      else fail unsupported_security

  -- "ws" is no network type of the core, which says "websocket".
  abbrev pub socket_accepts : Bytes → Bool → Bool
  socket_accepts type accepts =
      not (bytes_beq type (codes "tcp")) && (not (bytes_beq type (codes "ws")) && accepts)

  unfoldable pub build_stream_setting : BuilderConfig → NodeInfo → Result (Stream E)
  unfolding build_transport build_security resolve_transport
  build_stream_setting config node_info =
      let name = resolve_transport config.local node_info in
      then_build (or_fail bad_transport (core.network_type name)) (λ type.
        then_build (build_transport config node_info type) (λ transport.
          then_build (build_security config node_info) (λ security. ok (record {
            network = name;
            transport = transport;
            security = security;
            socket_accepts_proxy = socket_accepts type config.local.enable_proxy_protocol;
          }))))
