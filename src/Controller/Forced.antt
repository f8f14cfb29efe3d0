-- ===== src/Controller/Forced.antt =====
-- What the EnableReality flag of the panel client (api/v2board/v2board.go) makes of a node that the
-- controller then has to build.
use xray_r4u.Base.{◌≡◌, ◌≢◌, refl, true, false, Option, some, [], Bytes, int_beq, codes, arith}
use xray_r4u.Text.{trim_space, equal_fold, is_empty}
use xray_r4u.Api.{NodeInfo}
use xray_r4u.Panel.Json.{SimpleJson}
use xray_r4u.Panel.Client.{Client}
use xray_r4u.Panel.Node.{RealityConfig, parse_node_response, override_tls, reality_mode}
use xray_r4u.Controller.Stream.{Config, resolve_security, normalize_security_type}
use xray_r4u.Controller.Builder.Settings.{BuilderConfig, ok}
use xray_r4u.Controller.Builder.Streams.{StreamCore}
use xray_r4u.Controller.Builder.Inbound.{HandlerCore, inbound_builder}
use xray_r4u.Controller.Builder.Built.{inbound_builder-reality}

panel_security :
    (config : Config) (info : NodeInfo)
    → is_empty (trim_space config.security) ≡ true
    → info.tls_type ≡ codes "reality"
    → resolve_security config info ≡ codes "reality"
unfolding resolve_security normalize_security_type
panel_security config info s t = rw (s, t) refl

module _ (sj : SimpleJson) (marshal : RealityConfig → Bytes) where
  open sj use {Json, get, must_int}

  forced :
      (c : Client Json) (response : Json) (info : NodeInfo)
      → c.enable_reality ≡ true
      → equal_fold c.node_type (codes "anytls") ≡ false
      → int_beq (must_int (get response (codes "tls"))) reality_mode ≡ false
      → parse_node_response sj marshal c response ≡ some info
      → (info.tls_type ≡ codes "reality") × (info.reality_settings ≡ [])
  unfolding parse_node_response override_tls
  forced c response info on other mode parsed = ground arith

  module _ (parse_ip : Bytes → Option Bytes) {E R I : Type 0} (handlers : HandlerCore E R I)
      (core : StreamCore E) where
    -- Where EnableReality is set, the node is not AnyTLS, the panel's TLS mode is not REALITY, and the
    -- configuration names no security of its own: of a node that the client accepts the controller
    -- builds no inbound, under any tag.
    pub enable_reality_refused :
        (config : BuilderConfig) (c : Client Json) (response : Json) (info : NodeInfo) (tag : Bytes)
        (i : I)
        → c.enable_reality ≡ true
        → equal_fold c.node_type (codes "anytls") ≡ false
        → int_beq (must_int (get response (codes "tls"))) reality_mode ≡ false
        → is_empty (trim_space config.local.security) ≡ true
        → parse_node_response sj marshal c response ≡ some info
        → inbound_builder parse_ip handlers core config info tag ≢ ok i
    enable_reality_refused config c response info tag i on other mode local parsed built =
        let f = forced c response info on other mode parsed in
        let secured = panel_security config.local info local f.0 in
        let given =
          inbound_builder-reality parse_ip handlers core config info tag i built
            (rw secured refl) in
        ground (arith, given, f.1)
