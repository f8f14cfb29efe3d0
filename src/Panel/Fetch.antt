-- ===== src/Panel/Fetch.antt =====
-- The requests of api/v2board/v2board.go: what `New` sets for all of them, where each goes, and what
-- `GetNodeInfo`, `GetUserList` and `ReportNodeStatus` make of the answer.
use xray_r4u.Base.{
  ℕ, ◌≡◌, refl, Bool, true, false, Option, none, some, List, [], ◌∷◌, ◌++◌, Bytes, ℤ, pos, ltb_ℤ,
  if◌then◌else◌, codes, bytes_eq,
}
use xray_r4u.GoMap.{Map}
use xray_r4u.Text.{is_empty, show_int}
use xray_r4u.Api.{NodeInfo, UserInfo}
use xray_r4u.Panel.Json.{SimpleJson}
use xray_r4u.Panel.Redact.{redact_key}
use xray_r4u.Panel.Client.{Response, Client, parse_response}
use xray_r4u.Panel.Node.{RealityConfig, parse_node_response}
use xray_r4u.Panel.Users.{parse_user_response}

-- The fields of `api.Config` that `New` sends to the panel or waits by.
pub record ApiConfig : Type 0 where
  pub api_host : Bytes
  pub node_id : ℤ
  pub key : Bytes
  pub node_type : Bytes
  pub timeout : ℤ

-- What the HTTP client is set to, the timeout in seconds.
pub record HttpClient : Type 0 where
  pub retry_count : ℕ
  pub timeout : ℤ
  pub base_url : Bytes
  pub query : Map Bytes Bytes
  pub headers : Map Bytes Bytes

abbrev pub credentials : Bytes → Map Bytes Bytes
credentials key =
    if is_empty key
    then []
    else (codes "Authorization", codes "Bearer " ++ key) ∷ (codes "X-Api-Key", key) ∷ []

unfoldable pub new_http_client : ApiConfig → HttpClient
unfolding show_int
new_http_client c = record {
  retry_count = 3;
  timeout = if ltb_ℤ (pos 0) c.timeout then c.timeout else pos 5;
  base_url = c.api_host;
  query = (codes "node_id", show_int c.node_id) ∷ [];
  headers = credentials c.key;
}

pub record ClientInfo : Type 0 where
  pub api_host : Bytes
  pub node_id : ℤ
  pub key : Bytes
  pub node_type : Bytes

unfoldable pub describe : ApiConfig → ClientInfo
unfolding redact_key
describe c = record {
  api_host = c.api_host;
  node_id = c.node_id;
  key = redact_key c.key;
  node_type = c.node_type;
}

-- A request: where it goes, and the parameters of its own.
pub record Request : Type 0 where
  pub path : Bytes
  pub query : Map Bytes Bytes

abbrev pub uni_proxy : Bytes → Bytes
uni_proxy name = codes "/api/v1/server/UniProxy/" ++ name

abbrev pub node_type_of : ApiConfig → Map Bytes Bytes
node_type_of c = (codes "node_type", c.node_type) ∷ []

abbrev pub node_request : ApiConfig → Request
node_request c = record {
  path = uni_proxy (codes "config");
  query = (codes "local_port", codes "1") ∷ node_type_of c;
}

abbrev pub user_request : ApiConfig → Request
user_request c = record { path = uni_proxy (codes "user"); query = node_type_of c }

abbrev pub status_request : ApiConfig → Request
status_request c = record { path = uni_proxy (codes "status"); query = node_type_of c }

abbrev pub assemble_url : ApiConfig → Bytes → Bytes
assemble_url c path = c.api_host ++ path

-- The API key stands in no part of a request that a log of URLs shows: for any other key the base
-- URL, the client's parameters and each request are the same.
pub key_only_in_headers :
    (c : ApiConfig) (other : Bytes)
    → let c' = record c { key = other } in
      ((new_http_client c).base_url ≡ (new_http_client c').base_url)
      × (((new_http_client c).query ≡ (new_http_client c').query)
          × ((node_request c ≡ node_request c')
              × ((user_request c ≡ user_request c') × (status_request c ≡ status_request c'))))
unfolding new_http_client
key_only_in_headers c other = (refl, (refl, (refl, (refl, refl))))

module _ (sj : SimpleJson) (marshal : RealityConfig → Bytes) where
  open sj use {Json}

  abbrev pub take_config : Option Json → Client Json → Option NodeInfo × Client Json
  take_config none c = (none, c)
  take_config (some j) c =
      let kept : Client Json = record c { config_resp = some j } in
      (parse_node_response sj marshal kept j, kept)

  -- The answer is kept before it is known whether it describes a node.
  unfoldable pub get_node_info : Response → Client Json → Option NodeInfo × Client Json
  unfolding parse_response parse_node_response
  get_node_info res c = take_config (parse_response sj res) c

  abbrev pub take_users : Client Json → Option Json → Option (List UserInfo)
  take_users c none = none
  take_users c (some j) = some (parse_user_response sj c j)

  unfoldable pub get_user_list : Response → Client Json → Option (List UserInfo)
  unfolding parse_response parse_user_response
  get_user_list res c = take_users c (parse_response sj res)

  abbrev pub is_given : Option Json → Bool
  is_given none = false
  is_given (some j) = true

  -- True is a nil error.
  unfoldable pub report_node_status : Response → Bool
  unfolding parse_response
  report_node_status res = is_given (parse_response sj res)
