-- ===== src/Runner/Panel.antt =====
-- `Start` and `Close` of panel/panel.go. What they do to the core's instances and to the services is a
-- list of events, in order; whether a call of these fails is an argument.
use xray_r4u.Base.{
  Bool, true, false, Option, none, some, List, [], ◌∷◌, ◌++◌, Bytes, bytes_beq, if◌then◌else◌,
  codes, map,
}
use xray_r4u.Runner.Config.{NodesConfig, Config, ControllerDefaults, default_controller_config}
use xray_r4u.Runner.Core.{
  CoreLib, CoreConfig, Panic, unsupported_panel, bad_controller_config, cannot_create_instance,
  cannot_start_instance, Result, ok, panicked, ◌>>=◌, or_panic, merged, core_config,
}

-- What `Start` uses besides: `core.New`, the instance's `Start`, and the merging of a controller's
-- configuration. `A` is a client's configuration, `C` a controller's.
pub record StartLib (x : CoreLib) (A C : Type 0) : Type 1 where
  pub Instance : Type 0
  pub new_instance : CoreConfig x → Option Instance
  pub starts : Instance → Bool
  pub controller_defaults : ControllerDefaults → C
  pub merge_controller : C → C → Option C

-- A controller with its client, as `controller.New` makes it.
pub record Service (A C I : Type 0) : Type 0 where
  pub server : I
  pub api_config : A
  pub config : C
  pub panel_type : Bytes

pub data Event (A C I : Type 0) : Type 0 where
  instance_started : I → Event A C I
  instance_closed : I → Event A C I
  service_started : Service A C I → Event A C I
  service_closed : Service A C I → Event A C I

module _ (x : CoreLib) {A C : Type 0} (l : StartLib x A C) where
  open l use {Instance, new_instance, starts, controller_defaults, merge_controller}

  abbrev pub Node : Type 0
  Node = NodesConfig A C

  abbrev pub Controller : Type 0
  Controller = Service A C Instance

  abbrev pub Done : Type 0
  Done = Event A C Instance

  pub record Panel : Type 0 where
    pub server : Option Instance
    pub services : List Controller
    pub running : Bool

  unfoldable pub load_core : Config A C → Result Instance
  unfolding core_config
  load_core c = core_config x c >>= λ conf. or_panic cannot_create_instance (new_instance conf)

  -- One node of the configuration.
  unfoldable pub new_service : Instance → Node → Result Controller
  new_service server n =
      if bytes_beq n.panel_type (codes "V2board")
      then (merged merge_controller bad_controller_config
            (controller_defaults default_controller_config) n.controller_config
          >>= λ config. ok (record {
            server = server;
            api_config = n.api_config;
            config = config;
            panel_type = n.panel_type;
          }))
      else panicked (unsupported_panel n.panel_type)

  abbrev pub append_or_panic :
      Result Controller
      → (List Controller → Option Panic × List Controller)
      → List Controller
      → Option Panic × List Controller
  append_or_panic (panicked e) next services = (some e, services)
  append_or_panic (ok s) next services = next (services ++ s ∷ [])

  -- The services of the nodes are appended until one panics.
  unfoldable pub add_services :
      Instance → List Node → List Controller → Option Panic × List Controller
  unfolding new_service
  add_services server [] services = (none, services)
  add_services server (n ∷ nodes) services =
      append_or_panic (new_service server n) (add_services server nodes) services

  abbrev pub start_all : List Controller → List Done
  start_all = map Event.service_started

  abbrev pub close_all : List Controller → List Done
  close_all = map Event.service_closed

  -- What a call has done, the panic that ended it, and the panel after it.
  pub record Ended : Type 0 where
    pub events : List Done
    pub panic : Option Panic
    pub panel : Panel

  -- A service that fails to start is logged, and the next one is started.
  abbrev pub with_services : Instance → Panel → Option Panic × List Controller → Ended
  with_services server p (some e, services) = record {
    events = Event.instance_started server ∷ [];
    panic = some e;
    panel = record p { server = some server; services = services };
  }
  with_services server p (none, services) = record {
    events = Event.instance_started server ∷ start_all services;
    panic = none;
    panel = record { server = some server; services = services; running = true };
  }

  abbrev pub with_core : Config A C → Panel → Result Instance → Ended
  with_core c p (panicked e) = record { events = []; panic = some e; panel = p }
  with_core c p (ok server) =
      if starts server
      then with_services server p (add_services server c.nodes_config p.services)
      else record { events = []; panic = some cannot_start_instance; panel = p }

  unfoldable pub start : Config A C → Panel → Ended
  unfolding load_core add_services
  start c p = with_core c p (load_core c)

  abbrev pub close_server : Option Instance → List Done
  close_server none = []
  close_server (some server) = Event.instance_closed server ∷ []

  -- A service that fails to close is logged, and the next one is closed.
  unfoldable pub close : Panel → List Done × Panel
  close p = (
    close_all p.services ++ close_server p.server,
    record { server = none; services = []; running = false },
  )

  abbrev pub after_close : Panel → Ended → Ended
  after_close p started = record started { events = (close p).0 ++ started.events }

  -- What the loop of main/main.go does to reload, with the configuration that `Unmarshal` leaves: it
  -- decodes onto the configuration that is there, by `unmarshal`, so what the file does not say may
  -- stay as it was. The panel shares that configuration.
  module _ {F : Type 0} (unmarshal : F → Config A C → Config A C) where
    pub record Reloaded : Type 0 where
      pub config : Config A C
      pub ended : Ended

    unfoldable pub reload : F → Config A C → Panel → Reloaded
    unfolding start close
    reload file c p =
        let config = unmarshal file c in
        record { config = config; ended = after_close p (start config (close p).1) }
