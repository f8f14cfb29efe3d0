-- ===== src/Controller/Builder/Inbound.antt =====
-- `InboundBuilder`, `buildVlessFallbacks` and `buildAnyTLSHandlerConfig` of
-- service/controller/inboundbuilder.go, and `OutboundBuilder` of outboundbuilder.go. The core's own
-- `Build` methods are arguments; `none` is their error.
use xray_r4u.Base.{
  ℕ, Bool, Option, none, some, List, [], ◌∷◌, Bytes, bytes_beq, if◌then◌else◌, ◌||◌, not, codes,
}
use xray_r4u.Text.{is_empty, to_lower}
use xray_r4u.Api.{NodeInfo}
use xray_r4u.AnyTls.Fallback.{validate_fallback_addr}
use xray_r4u.Controller.Stream.{resolve_vless_decryption}
use xray_r4u.Controller.Builder.Settings.{
  BuilderConfig, FallBackConfig, StreamSecurity, Stream, encryption_with_fallback, no_fallbacks,
  no_dest, insecure_any_tls, bad_any_tls_fallback, core_build_failed, Result, ok, fail, then_build,
  or_fail, uint32,
}
use xray_r4u.Controller.Builder.Streams.{StreamCore, build_stream_setting}

-- `conf.VLessInboundFallback`
pub record VlessFallback : Type 0 where
  pub name : Bytes
  pub alpn : Bytes
  pub path : Bytes
  pub dest : Bytes
  pub xver : ℕ

unfoldable pub fallbacks_of : List FallBackConfig → Result (List VlessFallback)
fallbacks_of [] = ok []
fallbacks_of (c ∷ cs) =
    let rest = fallbacks_of cs in
    let fallback : VlessFallback = record {
      name = c.sni;
      alpn = c.alpn;
      path = c.path;
      dest = c.dest;
      xver = c.proxy_protocol_ver;
    } in
    if is_empty c.dest then fail no_dest else then_build rest (λ fs. ok (fallback ∷ fs))

unfoldable pub build_vless_fallbacks : Option (List FallBackConfig) → Result (List VlessFallback)
unfolding fallbacks_of
build_vless_fallbacks none = fail no_fallbacks
build_vless_fallbacks (some cs) = fallbacks_of cs

-- The settings of the protocol, before they are encoded.
pub data ProxySettings : Type 0 where
  vless : Bytes → List VlessFallback → ProxySettings
  any_tls : Bytes → Bytes → ProxySettings

-- The receiver's part of a handler; an empty listen address is none.
pub record Receiver (E : Type 0) : Type 0 where
  pub listen : Bytes
  pub port : ℕ
  pub sniffing : Bool
  pub stream : Stream E

-- `conf.InboundDetourConfig`
pub record Detour (E : Type 0) : Type 0 where
  pub tag : Bytes
  pub receiver : Receiver E
  pub proxy : ProxySettings

-- The core's `Build` of a detour, of the receiver's settings, and the handler config that the AnyTLS
-- branch puts together itself.
pub record HandlerCore (E R I : Type 0) : Type 0 where
  pub build_detour : Detour E → Option I
  pub build_receiver : Receiver E → Option R
  pub handler : Bytes → R → ProxySettings → I

abbrev pub security_name : {E : Type 0} → StreamSecurity E → Bytes
security_name StreamSecurity.plain = []
security_name (StreamSecurity.tls t) = codes "tls"
security_name (StreamSecurity.reality r) = codes "reality"

unfoldable pub vless_settings : BuilderConfig → NodeInfo → Result ProxySettings
unfolding resolve_vless_decryption build_vless_fallbacks
vless_settings config node_info =
    let decryption = resolve_vless_decryption config.local node_info in
    let fallbacks = build_vless_fallbacks config.fallbacks in
    if not config.local.enable_fallback
    then ok (ProxySettings.vless decryption [])
    else if not (bytes_beq decryption (codes "none"))
    then fail encryption_with_fallback
    else then_build fallbacks (λ fs. ok (ProxySettings.vless decryption fs))

abbrev pub is_secure : Bytes → Bool
is_secure security =
    let sec = to_lower security in bytes_beq sec (codes "tls") || bytes_beq sec (codes "reality")

abbrev pub receiver_of : {E : Type 0} → BuilderConfig → NodeInfo → Stream E → Receiver E
receiver_of config node_info stream = record {
  listen = config.local.listen_ip;
  port = uint32 node_info.port;
  sniffing = not config.disable_sniffing;
  stream = stream;
}

module _ (parse_ip : Bytes → Option Bytes) {E R I : Type 0} (handlers : HandlerCore E R I) where
  open handlers use {build_detour, build_receiver, handler}

  -- An empty fallback is checked too, and passes.
  abbrev pub any_tls_proxy : BuilderConfig → Result ProxySettings
  any_tls_proxy config = elim (validate_fallback_addr parse_ip config.any_tls_fallback) [
    | some err ↦ fail bad_any_tls_fallback
    | none ↦ ok (ProxySettings.any_tls config.any_tls_padding_scheme config.any_tls_fallback)
  ]

  unfoldable pub build_any_tls_handler_config :
      BuilderConfig → NodeInfo → Bytes → Stream E → Result I
  unfolding validate_fallback_addr
  build_any_tls_handler_config config node_info tag stream =
      let built = build_receiver (receiver_of config node_info stream) in
      if not (is_secure (security_name stream.security))
      then fail insecure_any_tls
      else then_build (or_fail core_build_failed built)
          (λ receiver. then_build (any_tls_proxy config) (λ proxy. ok (handler tag receiver proxy)))

  unfoldable pub build_vless_handler_config : BuilderConfig → NodeInfo → Bytes → Stream E → Result I
  unfolding vless_settings
  build_vless_handler_config config node_info tag stream =
      then_build (vless_settings config node_info) (λ proxy. or_fail core_build_failed (
        build_detour
          (record { tag = tag; receiver = receiver_of config node_info stream; proxy = proxy })))

  unfoldable pub inbound_builder : StreamCore E → BuilderConfig → NodeInfo → Bytes → Result I
  unfolding build_stream_setting build_any_tls_handler_config build_vless_handler_config
  inbound_builder core config node_info tag =
      then_build (build_stream_setting core config node_info) (λ stream.
        if bytes_beq (to_lower node_info.node_type) (codes "anytls")
        then build_any_tls_handler_config config node_info tag stream
        else build_vless_handler_config config node_info tag stream)

-- `conf.OutboundDetourConfig` of a freedom outbound; an empty address is none.
pub record OutboundDetour : Type 0 where
  pub tag : Bytes
  pub send_through : Bytes
  pub domain_strategy : Bytes

unfoldable pub domain_strategy_of : BuilderConfig → Bytes
domain_strategy_of config =
    if not config.enable_dns
    then codes "Asis"
    else if is_empty config.dns_type
    then codes "UseIP"
    else config.dns_type

unfoldable pub outbound_builder :
    {O : Type 0} → (OutboundDetour → Option O) → BuilderConfig → Bytes → Result O
unfolding domain_strategy_of
outbound_builder build config tag = or_fail core_build_failed (
    build (record {
      tag = tag;
      send_through = config.send_ip;
      domain_strategy = domain_strategy_of config;
    }))
