-- ===== src/Runner/Reload.antt =====
-- What a reload does (panel/panel.go, main/main.go).
use xray_r4u.Base.{◌≡◌, refl, true, false, Option, none, some, List, [], ◌∷◌, ◌++◌}
use mathlib.Core.List.{append-nil}
use xray_r4u.Runner.Config.{Config}
use xray_r4u.Runner.Core.{CoreLib, Panic, ok, panicked}
use xray_r4u.Runner.Panel.{
  StartLib, Event, Panel, Node, Controller, Ended, load_core, new_service, start_all, close_all,
  close_server, start, close, reload,
}

module _ (x : CoreLib) {A C : Type 0} (l : StartLib x A C) where
  open l use {Instance, starts}

  -- Each service is made of the node at its place.
  abbrev pub MadeOf : Instance → List (Node x l) → List (Controller x l) → Type 0
  MadeOf server [] [] = Unit {0}
  MadeOf server [] (s ∷ services) = ⊥
  MadeOf server (n ∷ nodes) [] = ⊥
  MadeOf server (n ∷ nodes) (s ∷ services) =
      (new_service x l server n ≡ ok s) × MadeOf server nodes services

  abbrev AddsMade :
      Instance
      → List (Node x l)
      → List (Controller x l)
      → Option Panic × List (Controller x l)
      → Type 0
  AddsMade server nodes before (none, services) =
      (made : List (Controller x l)) × ((services ≡ before ++ made) × MadeOf server nodes made)
  AddsMade server nodes before (some e, services) = Unit {0}

  -- What a reload leaves that ends without a panic, and what it did, in order.
  pub record IsReplaced (c : Config A C) (before : Panel x l) (e : Ended x l) : Type 0 where
    pub instance : Instance
    pub services : List (Controller x l)
    pub made : MadeOf instance c.nodes_config services
    pub panel : e.panel ≡ record { server = some instance; services = services; running = true }
    pub done :
        e.events
        ≡ close_all x l before.services
          ++ (close_server x l before.server
              ++ Event.instance_started instance ∷ start_all x l services)

  abbrev emptied : Panel x l
  emptied = record { server = none; services = []; running = false }

  module _ {F : Type 0} (unmarshal : F → Config A C → Config A C) where
    -- A reload to a configuration that the core cannot be built from panics after everything was
    -- closed: no service and no instance is left, and none is started.
    pub failed_reload_leaves_nothing :
        (file : F) (c : Config A C) (p : Panel x l) (e : Panic)
        → load_core x l (unmarshal file c) ≡ panicked e
        → let r = (reload x l unmarshal file c p).ended in
          (r.panic ≡ some e)
          × ((r.panel.server ≡ none)
              × ((r.panel.services ≡ [])
                  × (r.events ≡ close_all x l p.services ++ close_server x l p.server)))
    unfolding reload close start
    failed_reload_leaves_nothing file c p e bad =
        rw bad
          (refl, (refl, (refl, append-nil (close_all x l p.services ++ close_server x l p.server))))
