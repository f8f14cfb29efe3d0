-- ===== src/Controller/Tests.antt =====
-- Runs of the controller, on a core and on counters that are maps.
use xray_r4u.Base.{
  ℕ, ◌+◌, ◌≡◌, ◌↔◌, ◌≢◌, refl, true, false, Bool, Option, none, some, List, [], ◌∷◌, Bytes, codes,
  bytes_beq, bytes_beq_iff, bytes_eq, ℤ, int_eq, pos, if◌then◌else◌, ◌||◌, arith, map,
}
use xray_r4u.GoMap.{Map, lookup, insert, delete, lookup-insert, lookup-insert_ne, lookup-delete_ne}
use xray_r4u.Text.{trim_space, is_empty, show_int}
use xray_r4u.Api.{NodeInfo, UserInfo, UserTraffic}
use xray_r4u.Limiter.Registry.{add_inbound_limiter, email_key}
use xray_r4u.Limiter.Users.{lists, entry_at}
use xray_r4u.Rule.Manager.{count_or_zero}
use xray_r4u.Panel.Node.{
  parse_node_response, override_tls, panel_tls, resolve_panel_vless_decryption,
}
use xray_r4u.Panel.Client.{Client}
use xray_r4u.Panel.Json.{Value}
use xray_r4u.Panel.Tests.{test_json, client, node_answer, marshalled, node_443}
use xray_r4u.Controller.Start.{Server}
use xray_r4u.Controller.Stream.{Config}
use xray_r4u.Controller.Diff.{
  compare_user_list, by_uid, patched, identity, compare_user_list_patches,
}
use xray_r4u.Controller.Core.{XrayCore}
use xray_r4u.Controller.Replace.{
  Controller, build_node_tag, apply_node_info_change, add_new_tag, move_inbound, add_built_outbound,
  add_new_user, add_users, add_each,
}
use xray_r4u.Controller.Transaction.{failed_move_keeps_old}
use xray_r4u.Controller.Sync.{sync_users}
use xray_r4u.Controller.Refresh.{is_registered, settled, sync_users_entry}
use xray_r4u.Controller.Builder.Settings.{CertConfig}
use xray_r4u.Controller.Monitor.{Answers, Tick, node_info_monitor}
use xray_r4u.Controller.Reports.{Panel}
use xray_r4u.Controller.Ticks.{repeated-sync_users, node_info_monitor_panics}
use xray_r4u.Controller.Traffic.{Stats, drain_users, report_traffic, traffic_of}
use xray_r4u.Controller.Refund.{owed, report_traffic_lem}

abbrev CoreState : Type 0
CoreState = Map Bytes (List Bytes)

abbrev users_of : Option (List Bytes) → List Bytes
users_of none = []
users_of (some us) = us

abbrev pub is_there : {V : Type 0} → Option V → Bool
is_there none = false
is_there (some _) = true

-- A handler is the list of the names of its users; every call succeeds.
abbrev test_core : XrayCore
test_core = record {
  State = CoreState;
  Inbound = Bytes;
  Outbound = Bytes;
  Handler = List Bytes;
  handler = λ t s. lookup t s;
  inbound_tag = λ i. i;
  add_inbound = λ i s. (true, insert i [] s);
  add_outbound = λ o s. (true, s);
  remove_inbound = λ tag s. (true, delete tag s);
  remove_outbound = λ tag s. (true, s);
  has_user_manager = λ tag s. is_there (lookup tag s);
  has_anytls_server = λ tag s. is_there (lookup tag s);
  add_user = λ tag u s. (true, insert tag (u.email ∷ users_of (lookup tag s)) s);
  remove_user = λ tag email s. (true, insert tag [] s);
  update_users = λ tag us s. insert tag (map (λ u. u.name) us) s;
  add_inbound_local = λ i s t ne. lookup-insert_ne i t [] s ne;
  add_outbound_local = λ o s t. refl;
  remove_inbound_local = λ tag s t ne. lookup-delete_ne tag t s ne;
  remove_outbound_local = λ tag s t. refl;
  add_user_local = λ tag u s t ne. lookup-insert_ne tag t (u.email ∷ users_of (lookup tag s)) s ne;
  remove_user_local = λ tag email s t ne. lookup-insert_ne tag t [] s ne;
  update_users_local = λ tag us s t ne. lookup-insert_ne tag t (map (λ u. u.name) us) s ne;
}

abbrev pub config : Config
config = record {
  listen_ip = codes "::";
  transport = [];
  security = [];
  vision = [];
  xhttp = none;
  vless_decryption = [];
  reality_min_client_ver = [];
  reality_mldsa65_seed = [];
  reality_show = false;
  enable_proxy_protocol = false;
  enable_fallback = false;
  disable_upload_traffic = false;
  disable_get_rule = false;
}

abbrev pub node_on : ℤ → NodeInfo
node_on port = record {
  node_type = codes "v";
  node_id = pos 1;
  port = port;
  speed_limit = 0;
  alter_id = pos 0;
  transport_protocol = codes "tcp";
  fake_type = [];
  host = [];
  path = [];
  enable_tls = false;
  tls_type = [];
  enable_vision = false;
  enable_vless = true;
  cypher_method = [];
  service_name = [];
  header = [];
  reality_settings = [];
  vless_decryption = [];
}

abbrev user_7 : UserInfo
user_7 = record {
  uid = pos 7;
  email = codes "seven";
  passwd = [];
  port = pos 0;
  method = [];
  speed_limit = 0;
  device_limit = pos 1;
  protocol = [];
  protocol_param = [];
  obfs = [];
  obfs_param = [];
  uuid = codes "uuid-7";
  alter_id = pos 0;
}

abbrev inbound_of : NodeInfo → Bytes → Option Bytes
inbound_of info tag = some tag

abbrev outbound_of : NodeInfo → Bytes → Option Bytes
outbound_of info tag = some tag

-- A node whose outbound cannot be built.
abbrev no_outbound : NodeInfo → Bytes → Option Bytes
no_outbound info tag = none

some_tagged : (info : NodeInfo) (tag : Bytes) (i : Bytes) → inbound_of info tag ≡ some i → i ≡ tag
some_tagged info tag i e = cc

abbrev old_tag : Bytes
old_tag = codes "v_::_80"

abbrev running :
    (build_outbound : NodeInfo → Bytes → Option Bytes)
    → Controller test_core config inbound_of build_outbound ℤ
running build_outbound = record {
  core = (old_tag, []) ∷ [];
  limiter = add_inbound_limiter old_tag 0 (user_7 ∷ []) [];
  rules = record { inbound_rule = []; inbound_detect_result = [] };
  node_info = node_on (pos 80);
  tag = old_tag;
  user_list = user_7 ∷ [];
}

new_tag_ne : build_node_tag (node_on (pos 81)) config.listen_ip ≢ old_tag
unfolding build_node_tag show_int
new_tag_ne e = absurd (ground arith)

other_tag_ne : old_tag ≢ codes "w"
other_tag_ne e = absurd (ground arith)

new_other_ne : build_node_tag (node_on (pos 81)) config.listen_ip ≢ codes "w"
unfolding build_node_tag show_int
new_other_ne e = absurd (ground arith)

change_fails :
    (apply_node_info_change test_core config inbound_of no_outbound
      (node_on (pos 81))
      (user_7 ∷ [])
      (running no_outbound)).0
    ≡ false
unfolding apply_node_info_change move_inbound add_new_tag add_built_outbound build_node_tag show_int
change_fails = refl

change_succeeds :
    (apply_node_info_change test_core config inbound_of outbound_of
      (node_on (pos 81))
      (user_7 ∷ [])
      (running outbound_of)).0
    ≡ true
unfolding apply_node_info_change move_inbound add_new_tag add_built_outbound build_node_tag show_int
    add_new_user add_users add_each lookup insert
change_succeeds = refl

failed_move_keeps_old_example :
    let c' =
      (apply_node_info_change test_core config inbound_of no_outbound
        (node_on (pos 81))
        (user_7 ∷ [])
        (running no_outbound)).1 in
    (lookup old_tag c'.core ≡ lookup old_tag (running no_outbound).core)
    × (c'.limiter ≡ (running no_outbound).limiter)
    × (c'.rules ≡ (running no_outbound).rules)
    × (c'.node_info ≡ (running no_outbound).node_info)
    × (c'.tag ≡ (running no_outbound).tag)
    × (c'.user_list ≡ (running no_outbound).user_list)
failed_move_keeps_old_example =
    failed_move_keeps_old test_core config inbound_of no_outbound some_tagged ℤ (node_on (pos 81))
      (user_7 ∷ []) (running no_outbound) new_tag_ne change_fails

compare_user_list_patches_example :
    identity
      (lookup (pos 7) (patched (compare_user_list (user_7 ∷ []) []) (by_uid (user_7 ∷ []) [])))
    ≡ identity (lookup (pos 7) (by_uid [] []))
compare_user_list_patches_example = compare_user_list_patches (user_7 ∷ []) [] (pos 7)

abbrev key_7 : Bytes
key_7 = codes "v_::_80|seven|7"

seven_listed : lists old_tag key_7 (user_7 ∷ []) ≡ true
unfolding email_key show_int
seven_listed = refl

running_registered : is_registered old_tag (running outbound_of).limiter ≡ true
unfolding lookup add_inbound_limiter insert
running_registered = refl

sync_users_entry_example :
    entry_at old_tag key_7
      (sync_users test_core config inbound_of outbound_of ℤ
        (node_on (pos 80))
        (user_7 ∷ [])
        (running outbound_of)).limiter
    ≡ settled test_core config inbound_of outbound_of ℤ old_tag key_7
        (compare_user_list (user_7 ∷ []) (user_7 ∷ [])).0
        (user_7 ∷ [])
        (entry_at old_tag key_7 (running outbound_of).limiter)
sync_users_entry_example =
    sync_users_entry test_core config inbound_of outbound_of ℤ (node_on (pos 80)) (user_7 ∷ [])
      (running outbound_of) key_7 running_registered (λ e. absurd (ground arith)) seven_listed

abbrev pub Counters : Type 0
Counters = Map Bytes ℕ

abbrev pub counter_value : Bytes → Counters → ℕ
counter_value n s = count_or_zero (lookup n s)

abbrev pub with_counter : Bytes → ℕ → Counters → Counters
with_counter n k s = if is_there (lookup n s) then insert n k s else s

pub no_counter : (n : Bytes) (s : Counters) → is_there (lookup n s) ≡ false → counter_value n s ≡ 0
no_counter n s h = ground arith

pub value-with_counter :
    (n m : Bytes) (k : ℕ) (s : Counters)
    → is_there (lookup n s) ≡ true
    → counter_value m (with_counter n k s) ≡ (if bytes_beq n m then k else counter_value m s)
value-with_counter n m k s h = ground (arith, lookup-insert n m k s)

pub added_value :
    (n m : Bytes) (k : ℕ) (s : Counters)
    → is_there (lookup n s) ≡ true
    → counter_value m (with_counter n (counter_value n s + k) s)
      ≡ (if bytes_beq n m then counter_value m s + k else counter_value m s)
added_value n m k s h =
    ground (arith, value-with_counter n m (counter_value n s + k) s h, bytes_beq_iff n m)

pub there-with_counter :
    (n m : Bytes) (k : ℕ) (s : Counters)
    → is_there (lookup m (with_counter n k s)) ≡ is_there (lookup m s)
there-with_counter n m k s = ground (arith, lookup-insert n m k s, bytes_beq_iff n m)

abbrev pub test_stats : Stats
test_stats = record {
  State = Counters;
  value = counter_value;
  has_counter = λ n s. is_there (lookup n s);
  drain = λ n s. (counter_value n s, with_counter n 0 s);
  add = λ n k s. with_counter n (counter_value n s + k) s;
  register = λ n s. some (insert n 0 s);
  value-no_counter = no_counter;
  drained = λ n s h. refl;
  value-drain = λ n m s h. value-with_counter n m 0 s h;
  has_counter-drain = λ n m s. there-with_counter n m 0 s;
  value-add = added_value;
  has_counter-add = λ n m k s. there-with_counter n m (counter_value n s + k) s;
}

abbrev pub uplink_7 : Bytes
uplink_7 = codes "user>>>v_::_80|seven|7>>>traffic>>>uplink"

abbrev refusing : List UserTraffic → Bool
refusing report = false

abbrev pub counted : Counters
counted = (uplink_7, 90) ∷ []

report_traffic_example :
    counter_value uplink_7 counted
    ≡ counter_value uplink_7
        (report_traffic test_stats refusing false old_tag (user_7 ∷ []) counted)
      + (if false
            || refusing (
                map
                  (traffic_of test_stats)
                  (drain_users test_stats old_tag (user_7 ∷ []) counted).0)
          then owed test_stats uplink_7 (drain_users test_stats old_tag (user_7 ∷ []) counted).0
          else 0)
report_traffic_example =
    report_traffic_lem test_stats refusing false old_tag (user_7 ∷ []) counted uplink_7

abbrev pub forcing : Client Value
forcing = record client { enable_reality = true }

abbrev pub forced_node : NodeInfo
forced_node = record node_443 {
  enable_tls = true;
  tls_type = codes "reality";
  enable_vision = true;
}

pub forced_node_runs :
    parse_node_response test_json marshalled forcing node_answer ≡ some forced_node
unfolding parse_node_response override_tls panel_tls resolve_panel_vless_decryption trim_space
forced_node_runs = refl

pub no_local_security : is_empty (trim_space config.security) ≡ true
unfolding trim_space
no_local_security = refl

abbrev idle_server : Server test_core config inbound_of outbound_of ℤ
idle_server = record {
  core = [];
  limiter = [];
  rules = record { inbound_rule = []; inbound_detect_result = [] };
}

repeated-sync_users_example :
    let c' =
      sync_users test_core config inbound_of outbound_of ℤ
        (node_on (pos 80))
        []
        (running outbound_of) in
    (sync_users test_core config inbound_of outbound_of ℤ (node_on (pos 80)) [] c').core ≡ c'.core
repeated-sync_users_example =
    repeated-sync_users test_core config inbound_of outbound_of ℤ (node_on (pos 80)) []
      (running outbound_of) refl

-- A REALITY node, as the panel gives it.
abbrev reality_running : Controller test_core config inbound_of outbound_of ℤ
reality_running = record (running outbound_of) {
  node_info = record (node_on (pos 80)) { enable_tls = true; tls_type = codes "reality" };
}

abbrev same_answers : Answers
same_answers = record {
  node = some reality_running.node_info;
  users = some (user_7 ∷ []);
  rules = none;
}

abbrev no_cert : Option CertConfig
no_cert = none

node_info_monitor_panics_example :
    (node_info_monitor test_core config inbound_of outbound_of ℤ no_cert false same_answers
        reality_running
      ≡ Tick.panicked)
    ↔ ((no_cert ≡ none) × (true ≡ true))
node_info_monitor_panics_example =
    node_info_monitor_panics test_core config inbound_of outbound_of ℤ no_cert same_answers
      (user_7 ∷ []) reality_running refl refl

abbrev deaf : Panel
deaf = record { push_traffic = refusing; report_illegal = λ hits. none }

abbrev kicks_7 : Panel
kicks_7 = record { push_traffic = refusing; report_illegal = λ hits. some (pos 7 ∷ []) }

abbrev hit_running : Controller test_core config inbound_of outbound_of ℤ
hit_running = record (running outbound_of) {
  rules = record {
    inbound_rule = [];
    inbound_detect_result = (old_tag, (record { uid = pos 7; rule_id = pos 3 }, 2) ∷ []) ∷ [];
  };
}
