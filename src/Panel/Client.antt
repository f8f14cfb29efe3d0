-- ===== src/Panel/Client.antt =====
-- The state of the panel client (`APIClient` of api/v2board/v2board.go), and `parseResponse`, the
-- one place where a request's outcome is judged. HTTP itself (github.com/go-resty/resty) is an
-- argument: a request has a `Response`.
use xray_r4u.Base.{ℕ, Bool, Option, none, List, Bytes, ℤ, leb, if◌then◌else◌}
use xray_r4u.Api.{DetectRule}
use xray_r4u.Panel.Json.{SimpleJson}

-- The request failed, gave no response, or one with a status and a body.
pub data Response : Type 0 where
  failed missing : Response
  answered : ℕ → Bytes → Response

-- `speed_limit` is the configured default in bytes a second: the source computes it as
-- `uint64(c.SpeedLimit * 1000000 / 8)` from a float.
pub record Client (J : Type 0) : Type 0 where
  pub node_id : ℤ
  pub node_type : Bytes
  pub enable_reality : Bool
  pub speed_limit : ℕ
  pub device_limit : ℤ
  pub local_rule_list : List DetectRule
  pub config_resp : Option J
  pub last_kick_uids : List ℤ
  pub panel_rule_version : ℤ
  pub panel_rules_cache : List DetectRule
  pub panel_rules_ok : Bool

module _ (sj : SimpleJson) where
  open sj use {Json, new_json}

  -- `none` is an error; the texts of errors are not modelled.
  unfoldable pub parse_response : Response → Option Json
  parse_response failed = none
  parse_response missing = none
  parse_response (answered status body) = if leb 400 status then none else new_json body
