-- ===== src/Runner/Tests.antt =====
-- Runs of the process: a reload, and a file that is written in two steps.
use xray_r4u.Base.{
  ℕ, ◌≡◌, ◌≢◌, refl, true, false, Option, none, some, List, [], ◌∷◌, ◌++◌, Bytes, codes, bytes_beq,
  if◌then◌else◌, arith,
}
use xray_r4u.Runner.Config.{Config, NodesConfig}
use xray_r4u.Runner.Core.{CoreLib, cannot_read, panicked, core_config}
use xray_r4u.Runner.Panel.{StartLib, Panel, load_core, reload}
use xray_r4u.Runner.Watch.{Loop, Action, change, wake, run}
use xray_r4u.Runner.Stale.{second_change_lost}
use xray_r4u.Runner.Tools.{is_tools_invocation, Command, run_tools, unknown_command, short_form_lem}

-- All parts of the core's configuration are texts; one file is missing.
abbrev core : CoreLib
core = record {
  DnsConf = Bytes;
  Dns = Bytes;
  RouterConf = Bytes;
  Router = Bytes;
  InboundConf = Bytes;
  Inbound = Bytes;
  OutboundConf = Bytes;
  Outbound = Bytes;
  read_file = λ path. if bytes_beq path (codes "missing.json") then none else some path;
  merge_log = λ a b. some b;
  merge_connetion = λ a b. some b;
  empty_dns = [];
  unmarshal_dns = λ s. some s;
  build_dns = λ s. some s;
  empty_router = [];
  unmarshal_router = λ s. some s;
  build_router = λ s. some s;
  unmarshal_inbounds = λ s. some (s ∷ []);
  build_inbound = λ s. some s;
  unmarshal_outbounds = λ s. some (s ∷ []);
  build_outbound = λ s. some s;
}

abbrev lib : StartLib core Bytes Bytes
lib = record {
  Instance = ℕ;
  new_instance = λ c. some 2;
  starts = λ i. true;
  controller_defaults = λ d. codes "default";
  merge_controller = λ a b. some b;
}

abbrev node : Bytes → NodesConfig Bytes Bytes
node name = record { panel_type = codes "V2board"; api_config = name; controller_config = none }

abbrev config : Bytes → Config Bytes Bytes
config dns = record {
  log_config = none;
  dns_config_path = dns;
  inbound_config_path = [];
  outbound_config_path = codes "out.json";
  route_config_path = [];
  connetion_config = none;
  nodes_config = node (codes "a") ∷ node (codes "b") ∷ [];
}

abbrev running : Panel core lib
running = record {
  server = some 1;
  services =
      record { server = 1; api_config = codes "old"; config = []; panel_type = codes "V2board" }
      ∷ [];
  running = true;
}

-- A file that lists one node; the second of before stays.
abbrev keeps_rest : List (NodesConfig Bytes Bytes) → Config Bytes Bytes → Config Bytes Bytes
keeps_rest listed c = record c {
  nodes_config = elim c.nodes_config [ [] ↦ listed | n ∷ rest ↦ listed ++ rest ];
}

abbrev one_listed : List (NodesConfig Bytes Bytes)
one_listed = node (codes "c") ∷ []

missing :
    load_core core lib (config (codes "missing.json"))
    ≡ panicked (cannot_read (codes "missing.json"))
unfolding load_core core_config
missing = refl

abbrev started : Loop Bytes Bytes
started = record {
  queued = false;
  last_reload = none;
  reloading = false;
  current = codes "v0";
  loaded = codes "v0";
}

abbrev latest : Bytes → Bytes → Bytes
latest file c = file

-- An editor writes half of the file and the rest a second later.
second_change_lost_example :
    let actions =
      change (codes "half")
      ∷ wake 5000
      ∷ Action.reload
      ∷ change (codes "whole")
      ∷ wake 6000
      ∷ wake 60000
      ∷ [] in
    ((run latest actions started).loaded ≡ codes "half")
    × ((run latest actions started).current ≡ codes "whole")
second_change_lost_example =
    second_change_lost latest started (codes "half") (codes "whole") 5000 6000 (wake 60000 ∷ [])
      refl refl (omega arith) refl

abbrev no_commands : Bytes → Option Command
no_commands name = none

uuid_invokes_tools : is_tools_invocation (codes "XrayR" ∷ codes "uuid" ∷ []) ≡ true
unfolding is_tools_invocation
uuid_invokes_tools = refl

short_form_lem_example :
    (run_tools no_commands (codes "XrayR" ∷ codes "uuid" ∷ [])
      ≡ run_tools no_commands (codes "XrayR" ∷ codes "tools" ∷ codes "uuid" ∷ []))
    × (run_tools no_commands (codes "XrayR" ∷ codes "uuid" ∷ []) ≢ unknown_command (codes "uuid"))
short_form_lem_example =
    short_form_lem no_commands (codes "XrayR") (codes "uuid") [] uuid_invokes_tools refl
