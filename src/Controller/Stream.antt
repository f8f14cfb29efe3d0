-- ===== src/Controller/Stream.antt =====
-- How local configuration and panel data decide the transport, the security, Vision and the XHTTP
-- profile of a node: service/controller/stream_resolve.go, and the helpers of
-- service/controller/inboundbuilder.go that choose between the two.
use xray_r4u.Base.{
  Bool, true, false, Option, none, some, List, [], ◌∷◌, Bytes, bytes_beq, if◌then◌else◌, ◌||◌, not,
  codes, nat_beq,
}
use xray_r4u.Text.{trim_space, equal_fold, is_empty, to_lower}
use xray_r4u.Api.{NodeInfo}

pub record XhttpConfig : Type 0 where
  pub host : Bytes
  pub path : Bytes
  pub mode : Bytes

-- The fields of `Config` (service/controller/config.go) that decide the stream.
pub record Config : Type 0 where
  pub listen_ip : Bytes
  pub transport : Bytes
  pub security : Bytes
  pub vision : Bytes
  pub xhttp : Option XhttpConfig
  pub vless_decryption : Bytes
  pub reality_min_client_ver : Bytes
  pub reality_mldsa65_seed : Bytes
  pub reality_show : Bool
  pub enable_proxy_protocol : Bool
  pub enable_fallback : Bool
  pub disable_upload_traffic : Bool
  pub disable_get_rule : Bool

abbrev pub one_of : Bytes → List Bytes → Bool
one_of w [] = false
one_of w (v ∷ vs) = bytes_beq w v || one_of w vs

unfoldable pub normalize_transport_protocol : Bytes → Bytes
normalize_transport_protocol protocol =
    if one_of (to_lower protocol) (codes "http" ∷ codes "h2" ∷ codes "h3" ∷ codes "quic" ∷ [])
    then codes "xhttp"
    else protocol

unfoldable pub normalize_security_type : Bytes → Bytes
normalize_security_type security =
    let word = to_lower security in
    if bytes_beq word (codes "xtls")
    then codes "tls"
    else if bytes_beq word (codes "tls") || bytes_beq word (codes "reality")
    then word
    else []

unfoldable pub resolve_transport : Config → NodeInfo → Bytes
unfolding normalize_transport_protocol
resolve_transport config node_info =
    let local = trim_space config.transport in
    let panel = trim_space node_info.transport_protocol in
    if not (is_empty local)
    then normalize_transport_protocol local
    else if not (is_empty panel)
    then normalize_transport_protocol panel
    else codes "tcp"

unfoldable pub resolve_security : Config → NodeInfo → Bytes
resolve_security config node_info =
    let local = trim_space config.security in
    if is_empty local
    then normalize_security_type node_info.tls_type
    else if equal_fold local (codes "none") || bytes_beq local (codes "0")
    then []
    else normalize_security_type local

unfoldable pub is_xhttp_transport : Bytes → Bool
is_xhttp_transport name =
    one_of (to_lower (trim_space name)) (codes "xhttp" ∷ codes "splithttp" ∷ [])

abbrev pub on_words : List Bytes
on_words =
    codes "on" ∷ codes "true" ∷ codes "1" ∷ codes "yes" ∷ codes "enable" ∷ codes "enabled" ∷ []

abbrev pub off_words : List Bytes
off_words =
    codes "off" ∷ codes "false" ∷ codes "0" ∷ codes "no" ∷ codes "disable" ∷ codes "disabled" ∷ []

unfoldable pub resolve_vision : Config → NodeInfo → Bool
resolve_vision config node_info =
    let vision = to_lower (trim_space config.vision) in
    if one_of vision on_words
    then true
    else if one_of vision off_words
    then false
    else if is_xhttp_transport (resolve_transport config node_info)
    then (if node_info.enable_vision then true else false)
    else node_info.enable_vision

abbrev pub or_else : Bytes → Bytes → Bytes
or_else v w = if is_empty v then w else v

pub record XhttpProfile : Type 0 where
  pub host : Bytes
  pub path : Bytes
  pub mode : Bytes

unfoldable pub resolve_xhttp_host_path_mode : Config → NodeInfo → XhttpProfile
resolve_xhttp_host_path_mode config node_info =
    let host = trim_space node_info.host in
    let path = trim_space node_info.path in
    elim config.xhttp [
      | none ↦ record { host = host; path = path; mode = codes "auto" }
      | some x ↦ record {
        host = or_else (trim_space x.host) host;
        path = or_else (trim_space x.path) path;
        mode = or_else (trim_space x.mode) (codes "auto");
      }
    ]

-- `none` is the error "XHTTP requires a non-empty Path".
unfoldable pub xhttp_path : Bytes → Option Bytes
xhttp_path [] = none
xhttp_path (c ∷ path) = if nat_beq c b'/' then some (c ∷ path) else some (b'/' ∷ c ∷ path)

unfoldable pub resolve_vless_decryption : Config → NodeInfo → Bytes
resolve_vless_decryption config node_info =
    or_else (trim_space config.vless_decryption)
      (or_else (trim_space node_info.vless_decryption) (codes "none"))

-- The settings that `applyRealityLocalOverrides` touches.
pub record RealityKnobs : Type 0 where
  pub min_client_ver : Bytes
  pub mldsa65_seed : Bytes
  pub show : Bool

abbrev pub default_reality_min_client_ver : Bytes
default_reality_min_client_ver = codes "1.8.0"

unfoldable pub apply_reality_local_overrides : Config → RealityKnobs → RealityKnobs
apply_reality_local_overrides config knobs = record {
  min_client_ver = or_else (trim_space config.reality_min_client_ver) (
      if is_empty (trim_space knobs.min_client_ver)
      then default_reality_min_client_ver
      else knobs.min_client_ver);
  mldsa65_seed = or_else (trim_space config.reality_mldsa65_seed) knobs.mldsa65_seed;
  show = if config.reality_show then true else knobs.show;
}
