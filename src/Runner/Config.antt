-- ===== src/Runner/Config.antt =====
-- The configuration of the process (panel/config.go) and its defaults (panel/defaultConfig.go). `A` is
-- the configuration of a panel's client, `C` that of a controller.
use xray_r4u.Base.{ℕ, Option, List, [], Bytes, codes}

pub record LogConfig : Type 0 where
  pub level : Bytes
  pub access_path : Bytes
  pub error_path : Bytes

-- As the source spells it; the numbers are 32-bit.
pub record ConnetionConfig : Type 0 where
  pub handshake : ℕ
  pub conn_idle : ℕ
  pub uplink_only : ℕ
  pub downlink_only : ℕ
  pub buffer_size : ℕ

pub record NodesConfig (A C : Type 0) : Type 0 where
  pub panel_type : Bytes
  pub api_config : A
  pub controller_config : Option C

pub record Config (A C : Type 0) : Type 0 where
  pub log_config : Option LogConfig
  pub dns_config_path : Bytes
  pub inbound_config_path : Bytes
  pub outbound_config_path : Bytes
  pub route_config_path : Bytes
  pub connetion_config : Option ConnetionConfig
  pub nodes_config : List (NodesConfig A C)

abbrev pub default_log_config : LogConfig
default_log_config = record { level = codes "none"; access_path = []; error_path = [] }

abbrev pub default_connetion_config : ConnetionConfig
default_connetion_config = record {
  handshake = 4;
  conn_idle = 30;
  uplink_only = 2;
  downlink_only = 4;
  buffer_size = 64;
}

-- The fields of `controller.Config` that its default sets.
pub record ControllerDefaults : Type 0 where
  pub listen_ip : Bytes
  pub send_ip : Bytes
  pub update_periodic : ℕ
  pub dns_type : Bytes

abbrev pub default_controller_config : ControllerDefaults
default_controller_config = record {
  listen_ip = codes "127.0.0.1";
  send_ip = codes "127.0.0.1";
  update_periodic = 60;
  dns_type = codes "AsIs";
}
