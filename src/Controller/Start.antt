-- ===== src/Controller/Start.antt =====
-- `Start` of service/controller/controller.go up to its periodic tasks, with `rollbackInbound`. What
-- the panel answers to the three requests is an argument; `none` is an error.
use xray_r4u.Base.{Bool, true, false, Option, none, some, List, Bytes, bytes_eq, if◌then◌else◌}
use xray_r4u.Api.{NodeInfo, UserInfo, DetectRule}
use xray_r4u.Limiter.Registry.{Limiter, add_inbound_limiter, delete_inbound_limiter}
use xray_r4u.Rule.Manager.{RuleManager, update_rule, delete_rule}
use xray_r4u.Controller.Stream.{Config}
use xray_r4u.Controller.Core.{XrayCore}
use xray_r4u.Controller.Replace.{build_node_tag, remove_old_tag, add_new_user, add_new_tag}

abbrev pub with_rules : Bytes → Option (List DetectRule) → RuleManager → RuleManager
with_rules tag none r = r
with_rules tag (some rules) r = update_rule tag rules r

module _ (x : XrayCore) (config : Config) where
  open x use {State, Inbound, Outbound, handler, inbound_tag}

  module _ (build_inbound : NodeInfo → Bytes → Option Inbound)
      (build_outbound : NodeInfo → Bytes → Option Outbound) where
    -- What the controllers of a process share.
    pub record Server (B : Type 0) : Type 0 where
      pub core : State
      pub limiter : Limiter B
      pub rules : RuleManager

    module _ {B : Type 0} where
      unfoldable pub rollback_inbound : Bytes → Server B → Server B
      rollback_inbound tag s = record {
        core = (remove_old_tag x config tag s.core).1;
        limiter = delete_inbound_limiter tag s.limiter;
        rules = delete_rule tag s.rules;
      }

      unfoldable pub start_users :
          NodeInfo
          → Bytes
          → Option (List UserInfo)
          → Option (List DetectRule)
          → Server B
          → Bool × Server B
      unfolding rollback_inbound
      start_users info tag none fetched s = (false, rollback_inbound tag s)
      start_users info tag (some us) fetched s =
          let (seeded, core) = add_new_user x config us info tag s.core in
          if seeded
          then (
            true,
            record {
              core = core;
              limiter = add_inbound_limiter tag info.speed_limit us s.limiter;
              rules = if config.disable_get_rule then s.rules else with_rules tag fetched s.rules;
            },
          )
          else (false, rollback_inbound tag (record s { core = core }))

      unfoldable pub start :
          Option NodeInfo
          → Option (List UserInfo)
          → Option (List DetectRule)
          → Server B
          → Bool × Server B
      unfolding start_users
      start none users fetched s = (false, s)
      start (some info) users fetched s =
          let tag = build_node_tag info config.listen_ip in
          let (up, core) = add_new_tag x config build_inbound build_outbound info tag s.core in
          if up
          then start_users info tag users fetched (record s { core = core })
          else (false, record s { core = core })
