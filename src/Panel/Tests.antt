-- ===== src/Panel/Tests.antt =====
-- Runs of the panel client, with a JSON library on the trees of `Value`.
use xray_r4u.Base.{
  ◌≡◌, ◌≤◌, refl, true, false, Bool, Option, none, some, List, [], ◌∷◌, Bytes, codes, bytes_beq,
  int_eq, ℤ, pos, if◌then◌else◌, arith, inl, length,
}
use xray_r4u.Text.{trim_space}
use xray_r4u.Api.{NodeInfo, DetectResult, OnlineUser}
use xray_r4u.Panel.Json.{Value, Items, Fields, SimpleJson, to_list}
use xray_r4u.Panel.Client.{Client, Response, parse_response}
use xray_r4u.GoMap.{lookup, insert}
use xray_r4u.Panel.Illegal.{aggregate, aggregate_illegal_body, max_illegal_report_items, Item}
use xray_r4u.Panel.Report.{detected, item_hits, whole_body, In, aggregate_illegal_body_exact}
use xray_r4u.Panel.Node.{
  RealityConfig, parse_node_response, override_tls, panel_tls, resolve_panel_vless_decryption,
}
use xray_r4u.Panel.Rules.{Outcome}

abbrev find : Bytes → Fields → Option Value
find name Fields.done = none
find name (Fields.field k v fs) = if bytes_beq k name then some v else find name fs

abbrev field_of : Bytes → Value → Option Value
field_of name (Value.object fs) = find name fs
field_of name _ = none

abbrev or_null : Option Value → Value
or_null none = Value.null
or_null (some v) = v

abbrev elements : Value → Option (List Value)
elements (Value.array vs) = some (to_list vs)
elements _ = none

abbrev int_of : Value → Option ℤ
int_of (Value.number i f) = i
int_of _ = none

abbrev or_zero : Option ℤ → ℤ
or_zero none = pos 0
or_zero (some z) = z

abbrev text_of : Value → Bytes
text_of (Value.text t) = t
text_of _ = []

abbrev flag_of : Value → Bool
flag_of (Value.boolean b) = b
flag_of _ = false

-- A document with one array of uids to kick.
abbrev kick_answer : Value
kick_answer = Value.object (
    Fields.field (codes "kick_uids")
      (Value.array (Items.cons (Value.number (some (pos 7)) (pos 7)) Items.nil)) Fields.done)

-- One text is a document: the digit 1, which stands for the answer above.
abbrev pub test_json : SimpleJson
test_json = record {
  Json = Value;
  get = λ j name. or_null (field_of name j);
  check_get = λ j name. field_of name j;
  new_json = λ body. if bytes_beq body (codes "1") then some kick_answer else none;
  value = λ j. j;
  get_array = elements;
  must_int = λ j. or_zero (int_of j);
  get_int64 = int_of;
  must_string = text_of;
  must_bool = flag_of;
  must_string_array = λ j. [];
}

abbrev no_number : Bytes → ℤ
no_number t = pos 0

abbrev pub client : Client Value
client = record {
  node_id = pos 1;
  node_type = codes "vless";
  enable_reality = false;
  speed_limit = 0;
  device_limit = pos 0;
  local_rule_list = [];
  config_resp = none;
  last_kick_uids = [];
  panel_rule_version = pos 0;
  panel_rules_cache = [];
  panel_rules_ok = false;
}

abbrev hit_twice : List DetectResult
hit_twice =
    record { uid = pos 7; rule_id = pos 3; count = pos 2 }
    ∷ record { uid = pos 7; rule_id = pos 3; count = pos 0 }
    ∷ []

abbrev hit_item : Item
hit_item = record { uid = pos 7; rule_id = pos 3; count = 3 }

hit_item-In : In hit_item (whole_body hit_twice)
unfolding aggregate lookup insert
hit_item-In = inl refl

one_item : length (whole_body hit_twice) ≤ max_illegal_report_items
unfolding aggregate lookup insert
one_item = omega arith

aggregate_illegal_body_exact_example :
    item_hits (pos 7) (pos 3) (aggregate_illegal_body hit_twice)
    ≡ detected (pos 7) (pos 3) hit_twice
aggregate_illegal_body_exact_example =
    aggregate_illegal_body_exact hit_twice (pos 7) (pos 3) one_item

abbrev pub node_answer : Value
node_answer =
    Value.object
      (Fields.field (codes "server_port") (Value.number (some (pos 443)) (pos 443)) Fields.done)

abbrev pub marshalled : RealityConfig → Bytes
marshalled c = codes "{}"

abbrev or_any : Option NodeInfo → NodeInfo → NodeInfo
or_any none info = info
or_any (some info) _ = info

abbrev pub node_443 : NodeInfo
node_443 = record {
  node_type = codes "vless";
  node_id = pos 1;
  port = pos 443;
  speed_limit = 0;
  alter_id = pos 0;
  transport_protocol = codes "tcp";
  fake_type = [];
  host = [];
  path = [];
  enable_tls = false;
  tls_type = [];
  enable_vision = false;
  enable_vless = true;
  cypher_method = [];
  service_name = [];
  header = [];
  reality_settings = [];
  vless_decryption = [];
}

node_443_runs : parse_node_response test_json marshalled client node_answer ≡ some node_443
unfolding parse_node_response override_tls panel_tls resolve_panel_vless_decryption trim_space
node_443_runs = refl

abbrev compiles : Bytes → Outcome
compiles p = Outcome.compiled

answer_parses : parse_response test_json (Response.answered 200 (codes "1")) ≡ some kick_answer
unfolding parse_response
answer_parses = refl

failure_parses : parse_response test_json Response.failed ≡ none
unfolding parse_response
failure_parses = refl

abbrev at_home : ℤ → Bytes → OnlineUser
at_home uid ip = record { uid = uid; ip = ip }

abbrev online : List OnlineUser
online =
    at_home (pos 7) (codes "10.0.0.1")
    ∷ at_home (pos 8) (codes "10.0.0.2")
    ∷ at_home (pos 7) (codes "10.0.0.3")
    ∷ []
