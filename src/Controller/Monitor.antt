-- ===== src/Controller/Monitor.antt =====
-- The periodic `nodeInfoMonitor` of service/controller/controller.go as a whole, and `Close`. What the
-- panel answers is an argument; the renewal of a certificate is a request that the tick hands out.
use xray_r4u.Base.{
  Bool, Option, none, some, List, Bytes, bytes_eq, bytes_beq, if◌then◌else◌, ◌||◌, not, codes,
}
use xray_r4u.Api.{NodeInfo, UserInfo, DetectRule}
use xray_r4u.Limiter.Registry.{delete_inbound_limiter}
use xray_r4u.Rule.Manager.{update_rule, delete_rule}
use xray_r4u.Controller.Stream.{Config}
use xray_r4u.Controller.Core.{XrayCore}
use xray_r4u.Controller.Changed.{node_info_equal}
use xray_r4u.Controller.Replace.{Controller, apply_node_info_change}
use xray_r4u.Controller.Sync.{sync_users}
use xray_r4u.Controller.Builder.Settings.{CertConfig}

-- What `GetNodeInfo`, `GetUserList` and `GetNodeRule` answer in a tick; `none` is an error.
pub record Answers : Type 0 where
  pub node : Option NodeInfo
  pub users : Option (List UserInfo)
  pub rules : Option (List DetectRule)

-- `config.CertConfig` is a pointer: a nil one is read only for a node with TLS, and then panics.
pub data Renewal : Type 0 where
  unneeded : Renewal
  renew : CertConfig → Renewal
  nil_pointer : Renewal

unfoldable pub check_cert : Option CertConfig → NodeInfo → Renewal
check_cert cert info = if not info.enable_tls then unneeded else elim cert [
  | none ↦ nil_pointer
  | some c ↦
      if bytes_beq c.cert_mode (codes "dns") || bytes_beq c.cert_mode (codes "http")
      then renew c
      else unneeded
]

module _ (x : XrayCore) (config : Config) where
  open x use {Inbound, Outbound}

  module _ (build_inbound : NodeInfo → Bytes → Option Inbound)
      (build_outbound : NodeInfo → Bytes → Option Outbound) (B : Type 0) where
    abbrev World : Type 0
    World = Controller x config build_inbound build_outbound B

    -- What a tick leaves, with what it asks for; or the process has panicked.
    pub data Tick : Type 0 where
      done : World → Renewal → Tick
      panicked : Tick

    abbrev pub finish : World → Renewal → Tick
    finish c nil_pointer = panicked
    finish c renewal = done c renewal

    unfoldable pub take_rules : Option (List DetectRule) → World → World
    take_rules none c = c
    take_rules (some rules) c =
        if config.disable_get_rule then c else record c { rules = update_rule c.tag rules c.rules }

    -- On an unchanged node the users are synced after the certificate was looked at.
    unfoldable pub take_answers :
        Option CertConfig → NodeInfo → List UserInfo → Option (List DetectRule) → World → Tick
    unfolding take_rules check_cert
    take_answers cert info us rules c =
        let (applied, moved) =
          apply_node_info_change x config build_inbound build_outbound info us c in
        let same = take_rules rules c in
        let changed = take_rules rules moved in
        if node_info_equal c.node_info info
        then finish (sync_users x config build_inbound build_outbound B info us same)
            (check_cert cert same.node_info)
        else if applied
        then finish (record changed { user_list = us }) (check_cert cert changed.node_info)
        else done moved unneeded

    -- With a cancelled context or without the node or the users nothing is done.
    unfoldable pub node_info_monitor : Option CertConfig → Bool → Answers → World → Tick
    unfolding take_answers
    node_info_monitor cert closed a c = if closed then done c unneeded else elim a.node [
      | none ↦ done c unneeded
      | some info ↦ elim a.users [
        | none ↦ done c unneeded
        | some us ↦ take_answers cert info us a.rules c
      ]
    ]

    -- `Close`, behind which the monitors do nothing.
    unfoldable pub close : World → World
    close c = record c {
      limiter = delete_inbound_limiter c.tag c.limiter;
      rules = delete_rule c.tag c.rules;
    }
