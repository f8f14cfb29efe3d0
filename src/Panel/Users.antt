-- ===== src/Panel/Users.antt =====
-- The user list: `ParseUniProxyUserResponse` of api/v2board/v2board.go.
use xray_r4u.Base.{
  ℕ, ◌*◌, ◌/◌, ◌%◌, ◌^◌, ◌-◌, Option, none, some, List, [], Bytes, ℤ, pos, ltb, if◌then◌else◌,
  codes, map,
}
use xray_r4u.Text.{is_empty}
use xray_r4u.Api.{UserInfo}
use xray_r4u.Panel.Json.{SimpleJson, or_empty}
use xray_r4u.Panel.Client.{Client}

-- `uint64(v * 1000000 / 8)` for a positive int64: the product wraps to a signed number, the
-- division rounds towards zero, and the last conversion keeps the bits.
unfoldable pub mbps_to_bps : ℕ → ℕ
mbps_to_bps v =
    let w = v * 1000000 % 2 ^ 64 in
    if ltb w (2 ^ 63) then w / 8 else (2 ^ 64 - (2 ^ 64 - w) / 8) % 2 ^ 64

abbrev positive_part : Option ℤ → Option ℕ
positive_part (some (pos n)) = some n
positive_part _ = none

-- Per-user limits; a rate of 0 or less, a negative device limit and a value that is no number
-- leave the default.
unfoldable pub speed_of : ℕ → Option ℤ → ℕ
speed_of default v = elim (positive_part v) [
  | none ↦ default
  | some n ↦ if ltb 0 n then mbps_to_bps n else default
]

unfoldable pub devices_of : ℤ → Option ℤ → ℤ
devices_of default v = elim (positive_part v) [ none ↦ default | some n ↦ pos n ]

module _ (sj : SimpleJson) where
  open sj use {Json, get, check_get, get_array, get_int64, must_int, must_string}

  -- `CheckGet(name)` and, if it is there, its `Int64()`.
  abbrev optional_int : Json → Bytes → Option ℤ
  optional_int j name = elim (check_get j name) [ none ↦ none | some v ↦ get_int64 v ]

  unfoldable pub parse_user : Client Json → Json → UserInfo
  unfolding speed_of devices_of
  parse_user c j =
      let uuid = must_string (get j (codes "uuid")) in
      let email = must_string (get j (codes "email")) in
      record {
        uid = must_int (get j (codes "id"));
        email = if is_empty email then uuid else email;
        passwd = [];
        port = pos 0;
        method = [];
        speed_limit = speed_of c.speed_limit (optional_int j (codes "speed_limit"));
        device_limit = devices_of c.device_limit (optional_int j (codes "device_limit"));
        protocol = [];
        protocol_param = [];
        obfs = [];
        obfs_param = [];
        uuid = uuid;
        alter_id = pos 0;
      }

  unfoldable pub parse_user_response : Client Json → Json → List UserInfo
  unfolding parse_user
  parse_user_response c response =
      map (parse_user c) (or_empty (get_array (get response (codes "users"))))
