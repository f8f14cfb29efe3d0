-- ===== src/Panel/Node.antt =====
-- The node configuration: `ParseUniProxyNodeResponse`, `buildRealitySettings` and the readers of
-- optional fields, of api/v2board/v2board.go.
use xray_r4u.Base.{
  ℕ, Bool, true, false, Option, none, some, List, [], ◌∷◌, Bytes, ℤ, pos, leb_ℤ, ltb_ℤ, int_beq,
  bytes_beq, if◌then◌else◌, ◌&&◌, ◌||◌, not, codes,
}
use xray_r4u.Text.{trim_space, equal_fold, is_empty, split_host_port, join_host_port}
use xray_r4u.Api.{NodeInfo}
use xray_r4u.Panel.Json.{SimpleJson}
use xray_r4u.Panel.Client.{Client}

-- The REALITY settings that the node passes to its core.
pub record RealityConfig : Type 0 where
  pub show : Bool
  pub dest : Bytes
  pub server_names : List Bytes
  pub private_key : Bytes
  pub public_key : Bytes
  pub short_ids : List Bytes
  pub fingerprint : Bytes
  pub min_client_ver : Bytes
  pub max_time_diff : ℕ
  pub mldsa65_seed : Bytes

abbrev pub default_reality_min_client_ver : Bytes
default_reality_min_client_ver = codes "1.8.0"

-- The first text that is not empty.
abbrev pub or_else : Bytes → Bytes → Bytes
or_else v w = if is_empty v then w else v

-- `dest` with a port: as it is if it has one.
unfoldable pub dest_address : Bytes → Bytes → Bytes
dest_address dest port = elim (split_host_port dest) [
  | some _ ↦ dest
  | none ↦ join_host_port dest port
]

-- What the panel's TLS mode and flow ask for.
pub record TlsChoice : Type 0 where
  pub enable_tls : Bool
  pub tls_type : Bytes
  pub enable_vision : Bool

abbrev pub reality_mode : ℤ
reality_mode = pos 2

unfoldable pub panel_tls : ℤ → Bool → TlsChoice
panel_tls mode vision =
    if int_beq mode reality_mode
    then record { enable_tls = true; tls_type = codes "reality"; enable_vision = vision }
    else if int_beq mode (pos 1)
    then record { enable_tls = true; tls_type = codes "tls"; enable_vision = vision }
    else record { enable_tls = false; tls_type = []; enable_vision = false }

-- The EnableReality flag of config.yml overrides the panel, but for AnyTLS.
unfoldable pub override_tls : Bool → Bytes → ℤ → TlsChoice → TlsChoice
override_tls enable_reality node_type mode choice =
    if enable_reality
      && (not (int_beq mode reality_mode) && not (equal_fold node_type (codes "anytls")))
    then record { enable_tls = true; tls_type = codes "reality"; enable_vision = true }
    else choice

-- `marshal` is encoding/json's text of the settings.
module _ (sj : SimpleJson) (marshal : RealityConfig → Bytes) where
  open sj use {Json, get, must_int, must_string, must_bool}

  -- A field of the given name, trimmed.
  abbrev trimmed : Json → Bytes → Bytes
  trimmed j name = trim_space (must_string (get j name))

  unfoldable pub resolve_panel_min_client_ver : Json → Bytes
  resolve_panel_min_client_ver tls =
      or_else (trimmed tls (codes "min_client_ver"))
        (or_else (trimmed tls (codes "minClientVer")) default_reality_min_client_ver)

  unfoldable pub resolve_panel_mldsa65_seed : Json → Bytes
  resolve_panel_mldsa65_seed tls =
      or_else (trimmed tls (codes "mldsa65_seed")) (trimmed tls (codes "mldsa65Seed"))

  unfoldable pub resolve_panel_vless_decryption : Json → Bytes
  resolve_panel_vless_decryption response =
      or_else (trimmed response (codes "decryption")) (trimmed response (codes "vless_decryption"))

  unfoldable pub reality_config : Json → RealityConfig
  unfolding dest_address resolve_panel_min_client_ver resolve_panel_mldsa65_seed
  reality_config tls =
      let server_name = must_string (get tls (codes "server_name")) in
      record {
        show = must_bool (get tls (codes "show"));
        dest =
            dest_address (or_else (must_string (get tls (codes "dest"))) server_name)
              (or_else (must_string (get tls (codes "server_port"))) (codes "443"));
        server_names = server_name ∷ [];
        private_key = must_string (get tls (codes "private_key"));
        public_key = must_string (get tls (codes "public_key"));
        short_ids = must_string (get tls (codes "short_id")) ∷ [];
        fingerprint = or_else (must_string (get tls (codes "fingerprint"))) (codes "chrome");
        min_client_ver = resolve_panel_min_client_ver tls;
        max_time_diff = 60000;
        mldsa65_seed = resolve_panel_mldsa65_seed tls;
      }

  -- Nil where the panel gives neither a server name nor a key.
  unfoldable pub build_reality_settings : Json → Bytes
  build_reality_settings tls =
      if is_empty (must_string (get tls (codes "server_name")))
        && is_empty (must_string (get tls (codes "private_key")))
      then []
      else marshal (reality_config tls)

  unfoldable pub parse_node_response : Client Json → Json → Option NodeInfo
  parse_node_response c response =
      let port = must_int (get response (codes "server_port")) in
      let mode = must_int (get response (codes "tls")) in
      let vision =
        bytes_beq (must_string (get response (codes "flow"))) (codes "xtls-rprx-vision") in
      let choice = override_tls c.enable_reality c.node_type mode (panel_tls mode vision) in
      let info : NodeInfo = record {
        node_type = c.node_type;
        node_id = c.node_id;
        port = port;
        speed_limit = 0;
        alter_id = pos 0;
        transport_protocol = or_else (must_string (get response (codes "network"))) (codes "tcp");
        fake_type = [];
        host = [];
        path = [];
        enable_tls = choice.enable_tls;
        tls_type = choice.tls_type;
        enable_vision = choice.enable_vision;
        enable_vless = true;
        cypher_method = [];
        service_name = [];
        header = [];
        reality_settings =
            if int_beq mode reality_mode
            then build_reality_settings (get response (codes "tls_settings"))
            else [];
        vless_decryption = resolve_panel_vless_decryption response;
      } in
      if leb_ℤ port (pos 0) || ltb_ℤ (pos 65535) port then none else some info
