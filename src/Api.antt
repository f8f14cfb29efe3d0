-- ===== src/Api.antt =====
-- api/apimodel.go and api/security.go: what the panel client and the controller exchange. Go's
-- `int` is an integer, `uint64` a number below 2^64, and a `string` or a `json.RawMessage` a list
-- of bytes. A compiled pattern is named by its source text; `none` is the nil pointer.
use xray_r4u.Base.{
  ℕ, ℤ, Bool, true, false, Bytes, Option, [], if◌then◌else◌, ◌||◌, codes, bytes_beq,
}
use xray_r4u.Text.{to_lower}

pub record NodeInfo : Type 0 where
  pub node_type : Bytes
  pub node_id : ℤ
  pub port : ℤ
  pub speed_limit : ℕ
  pub alter_id : ℤ
  pub transport_protocol : Bytes
  pub fake_type : Bytes
  pub host : Bytes
  pub path : Bytes
  pub enable_tls : Bool
  pub tls_type : Bytes
  pub enable_vision : Bool
  pub enable_vless : Bool
  pub cypher_method : Bytes
  pub service_name : Bytes
  pub header : Bytes
  pub reality_settings : Bytes
  pub vless_decryption : Bytes

pub record UserInfo : Type 0 where
  pub uid : ℤ
  pub email : Bytes
  pub passwd : Bytes
  pub port : ℤ
  pub method : Bytes
  pub speed_limit : ℕ
  pub device_limit : ℤ
  pub protocol : Bytes
  pub protocol_param : Bytes
  pub obfs : Bytes
  pub obfs_param : Bytes
  pub uuid : Bytes
  pub alter_id : ℤ

pub record OnlineUser : Type 0 where
  pub uid : ℤ
  pub ip : Bytes

pub record UserTraffic : Type 0 where
  pub uid : ℤ
  pub email : Bytes
  pub upload : ℤ
  pub download : ℤ

pub record DetectRule : Type 0 where
  pub id : ℤ
  pub pattern : Option Bytes

pub record DetectResult : Type 0 where
  pub uid : ℤ
  pub rule_id : ℤ
  pub count : ℤ

-- The result of `ResolveSecurity`: the flags of NodeInfo that it sets.
pub record Security : Type 0 where
  pub enable_tls : Bool
  pub tls_type : Bytes
  pub enable_vision : Bool

abbrev pub reality_vision : Security
reality_vision = record { enable_tls = true; tls_type = codes "reality"; enable_vision = true }

abbrev pub tls_vision : Security
tls_vision = record { enable_tls = true; tls_type = codes "tls"; enable_vision = true }

abbrev pub tls_plain : Security
tls_plain = record { enable_tls = true; tls_type = codes "tls"; enable_vision = false }

abbrev pub no_security : Security
no_security = record { enable_tls = false; tls_type = []; enable_vision = false }

unfoldable pub resolve_security : Bytes → Bool → Bool → Bool → Security
resolve_security security enable_xtls enable_reality has_reality_settings =
    let word = to_lower security in
    if bytes_beq word (codes "reality")
    then reality_vision
    else if bytes_beq word (codes "tls")
    then tls_plain
    else if bytes_beq word (codes "xtls")
    then tls_vision
    else if enable_reality || has_reality_settings
    then reality_vision
    else if enable_xtls
    then tls_vision
    else no_security
