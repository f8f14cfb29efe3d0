-- ===== src/Panel/Limits.antt =====
-- What the panel's answers can make of a node and of its users: the parsers of
-- api/v2board/v2board.go.
use xray_r4u.Base.{
  ℕ, ◌*◌, ◌^◌, ◌<◌, ◌≡◌, true, false, none, some, Bytes, ℤ, pos, leb_ℤ, ltb_ℤ, ◌≤ℤ◌, ◌||◌, not,
  codes, arith, ◌↔◌,
}
use xray_r4u.Text.{is_empty}
use xray_r4u.Api.{NodeInfo}
use xray_r4u.Panel.Json.{SimpleJson}
use xray_r4u.Panel.Client.{Client}
use xray_r4u.Panel.Node.{RealityConfig, parse_node_response, panel_tls, override_tls}
use xray_r4u.Panel.Users.{mbps_to_bps, speed_of}

mbps_to_bps_exact : (v : ℕ) → v * 1000000 < 2 ^ 63 → mbps_to_bps v ≡ v * 125000
unfolding mbps_to_bps
mbps_to_bps_exact v h = ground arith

-- A positive rate in Mbit/s that the panel sets for a user becomes that many times 125000 bytes per
-- second, whatever the default, if the product with a million fits an int64.
pub speed_of_exact :
    (default n : ℕ) → 0 < n → n * 1000000 < 2 ^ 63 → speed_of default (some (pos n)) ≡ n * 125000
unfolding speed_of
speed_of_exact default n p h = ground (arith, mbps_to_bps_exact n h)

module _ (sj : SimpleJson) (marshal : RealityConfig → Bytes) where
  open sj use {Json, get, must_int, must_string}

  -- The node's port as the panel gives it.
  abbrev port_of : Json → ℤ
  port_of response = must_int (get response (codes "server_port"))

  -- A node is accepted exactly if its port lies from 1 to 65535.
  pub parse_node_response_fails :
      (c : Client Json) (response : Json)
      → (parse_node_response sj marshal c response ≡ none)
        ↔ ((leb_ℤ (port_of response) (pos 0) || ltb_ℤ (pos 65535) (port_of response)) ≡ true)
  unfolding parse_node_response
  parse_node_response_fails c response = ground arith

  -- An accepted node has a port from 1 to 65535 and a transport, and TLS is on exactly if a TLS type
  -- is named.
  pub parse_node_response_lem :
      (c : Client Json) (response : Json) (info : NodeInfo)
      → parse_node_response sj marshal c response ≡ some info
      → (pos 1 ≤ℤ info.port)
        × (info.port ≤ℤ pos 65535)
        × (is_empty info.transport_protocol ≡ false)
        × (info.enable_tls ≡ not (is_empty info.tls_type))
  unfolding parse_node_response override_tls panel_tls
  parse_node_response_lem c response info h = ground arith
