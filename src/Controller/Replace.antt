-- ===== src/Controller/Replace.antt =====
-- How a controller moves to a new node configuration: `applyNodeInfoChange`, `addNewTag`,
-- `removeOldTag`, `addNewUser` and `buildNodeTag` of service/controller/controller.go, with the
-- builders of userbuilder.go and the calls of control.go. What `InboundBuilder` and
-- `OutboundBuilder` answer for a node and a tag are arguments: they end in xray-core's builders.
use xray_r4u.Base.{
  Bool, true, false, Option, none, some, List, [], ◌∷◌, ◌++◌, Bytes, bytes_eq, bytes_beq,
  if◌then◌else◌, codes, map,
}
use xray_r4u.Text.{equal_fold, show_int}
use xray_r4u.Api.{NodeInfo, UserInfo}
use xray_r4u.Limiter.Registry.{Limiter, email_key, add_inbound_limiter, delete_inbound_limiter}
use xray_r4u.Rule.Manager.{RuleManager, delete_rule}
use xray_r4u.Controller.Stream.{Config, resolve_vision}
use xray_r4u.Controller.Core.{XrayCore, VlessUser, AnytlsUser}

unfoldable pub build_node_tag : NodeInfo → Bytes → Bytes
build_node_tag info listen_ip = info.node_type ++ b'_' ∷ (listen_ip ++ b'_' ∷ show_int info.port)

abbrev pub build_vless_user : Bytes → Bool → UserInfo → VlessUser
build_vless_user tag vision u = record {
  email = email_key tag u.email u.uid;
  id = u.uuid;
  vision = vision;
}

abbrev pub build_anytls_user : Bytes → UserInfo → AnytlsUser
build_anytls_user tag u = record { name = email_key tag u.email u.uid; password = u.uuid }

module _ (x : XrayCore) (config : Config) where
  open x use {
    State, Inbound, Outbound, add_inbound, add_outbound, remove_inbound, remove_outbound,
    has_user_manager, has_anytls_server, add_user, update_users,
  }

  -- `removeOldTag`: the outbound stays where the inbound cannot be removed.
  unfoldable pub remove_old_tag : Bytes → State → Bool × State
  remove_old_tag tag s =
      let (gone, s') = remove_inbound tag s in if gone then remove_outbound tag s' else (false, s')

  unfoldable pub add_each : Bytes → List VlessUser → State → Bool × State
  add_each tag [] s = (true, s)
  add_each tag (u ∷ us) s =
      let (added, s') = add_user tag u s in
      let rest = add_each tag us s' in if added then rest else (false, s')

  unfoldable pub add_users : Bytes → List VlessUser → State → Bool × State
  unfolding add_each
  add_users tag us s = if has_user_manager tag s then add_each tag us s else (false, s)

  unfoldable pub add_new_user : List UserInfo → NodeInfo → Bytes → State → Bool × State
  unfolding add_users
  add_new_user us info tag s =
      if equal_fold info.node_type (codes "anytls")
      then (if has_anytls_server tag s
          then (true, update_users tag (map (build_anytls_user tag) us) s)
          else (false, s))
      else add_users tag (map (build_vless_user tag (resolve_vision config info)) us) s

  module _ (build_inbound : NodeInfo → Bytes → Option Inbound)
      (build_outbound : NodeInfo → Bytes → Option Outbound) where
    unfoldable pub add_built_outbound : Option Outbound → State → Bool × State
    add_built_outbound none s = (false, s)
    add_built_outbound (some o) s = add_outbound o s

    unfoldable pub add_new_tag : NodeInfo → Bytes → State → Bool × State
    unfolding add_built_outbound
    add_new_tag info tag s = elim (build_inbound info tag) [
      | none ↦ (false, s)
      | some i ↦
          let (added, s') = add_inbound i s in
          if added then add_built_outbound (build_outbound info tag) s' else (false, s')
    ]

    -- The controller's state, with the limiter and the rules of the dispatcher it drives.
    pub record Controller (B : Type 0) : Type 0 where
      pub core : State
      pub limiter : Limiter B
      pub rules : RuleManager
      pub node_info : NodeInfo
      pub tag : Bytes
      pub user_list : List UserInfo

    module _ {B : Type 0} where
      -- The new tag differs: the new inbound is up, with its users, before the old one goes.
      unfoldable pub move_inbound :
          NodeInfo → List UserInfo → Bytes → Controller B → Bool × Controller B
      unfolding add_new_tag add_new_user remove_old_tag
      move_inbound info us new_tag c =
          let (up, s1) = add_new_tag info new_tag c.core in
          let (seeded, s2) = add_new_user us info new_tag s1 in
          let limiter = add_inbound_limiter new_tag info.speed_limit us c.limiter in
          if up
          then (if seeded
              then (
                true,
                record c {
                  core = (remove_old_tag c.tag s2).1;
                  limiter = delete_inbound_limiter c.tag limiter;
                  rules = delete_rule c.tag c.rules;
                  node_info = info;
                  tag = new_tag;
                },
              )
              else (false, record c { core = (remove_old_tag new_tag s2).1 }))
          else (false, record c { core = s1 })

      -- `restoreOld`: the previous inbound, and its users if there were any.
      unfoldable pub restore_old : Controller B → State → Controller B
      restore_old c s =
          let (up, s1) = add_new_tag c.node_info c.tag s in
          let restored : Controller B = record c { core = s1 } in
          let seeded : Controller B = record c {
            core = (add_new_user c.user_list c.node_info c.tag s1).1;
            limiter = add_inbound_limiter c.tag c.node_info.speed_limit c.user_list c.limiter;
          } in
          if up then elim c.user_list [ [] ↦ restored | _ ∷ _ ↦ seeded ] else restored

      -- The tag stays: one tag cannot have two handlers, so the old one goes first.
      unfoldable pub replace_in_place :
          NodeInfo → List UserInfo → Controller B → Bool × Controller B
      unfolding restore_old
      replace_in_place info us c =
          let (gone, s1) = remove_old_tag c.tag c.core in
          let (up, s2) = add_new_tag info c.tag s1 in
          let (seeded, s3) = add_new_user us info c.tag s2 in
          if gone
          then (if up
              then (if seeded
                  then (
                    true,
                    record c {
                      core = s3;
                      limiter = add_inbound_limiter c.tag info.speed_limit us c.limiter;
                      node_info = info;
                    },
                  )
                  else (false, restore_old c (remove_old_tag c.tag s3).1))
              else (false, restore_old c s2))
          else (false, record c { core = s1 })

      unfoldable pub apply_node_info_change :
          NodeInfo → List UserInfo → Controller B → Bool × Controller B
      unfolding move_inbound replace_in_place
      apply_node_info_change info us c =
          let new_tag = build_node_tag info config.listen_ip in
          if bytes_beq new_tag c.tag
          then replace_in_place info us c
          else move_inbound info us new_tag c
