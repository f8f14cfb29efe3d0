-- ===== src/Controller/Started.antt =====
-- What a start that fails leaves (`Start` and `rollbackInbound` of service/controller/controller.go).
use xray_r4u.Base.{◌≡◌, ◌≢◌, Option, none, some, [], Bytes, bytes_eq}
use xray_r4u.Api.{NodeInfo}
use xray_r4u.GoMap.{lookup}
use xray_r4u.Controller.Stream.{Config}
use xray_r4u.Controller.Core.{XrayCore}
use xray_r4u.Controller.Start.{Server, rollback_inbound}

module _ (x : XrayCore) (config : Config) (build_inbound : NodeInfo → Bytes → Option x.Inbound)
    (build_outbound : NodeInfo → Bytes → Option x.Outbound)
    (tagged : (info : NodeInfo) (tag : Bytes) (i : x.Inbound)
      → build_inbound info tag ≡ some i
      → x.inbound_tag i ≡ tag)
    (removes : (tag : Bytes) (s : x.State)
      → tag ≢ []
      → x.handler tag (x.remove_inbound tag s).1 ≡ none) where
  open x use {State, handler}

  module _ (B : Type 0) where
    abbrev Shared : Type 0
    Shared = Server x config build_inbound build_outbound B

    -- Two states of what is shared that agree at a tag.
    pub record IsSame (t : Bytes) (s s' : Shared) : Type 0 where
      pub handlers : handler t s'.core ≡ handler t s.core
      pub limiters : lookup t s'.limiter ≡ lookup t s.limiter
      pub rules : lookup t s'.rules.inbound_rule ≡ lookup t s.rules.inbound_rule
      pub hits : lookup t s'.rules.inbound_detect_result ≡ lookup t s.rules.inbound_detect_result

    -- Nothing is known under a tag.
    pub record IsFree (tag : Bytes) (s : Shared) : Type 0 where
      pub no_handler : handler tag s.core ≡ none
      pub no_limiter : lookup tag s.limiter ≡ none
      pub no_rules : lookup tag s.rules.inbound_rule ≡ none
      pub no_hits : lookup tag s.rules.inbound_detect_result ≡ none

    abbrev taken_back : Bytes → State → Shared → Shared
    taken_back tag core s =
        rollback_inbound x config build_inbound build_outbound tag (record s { core = core })
