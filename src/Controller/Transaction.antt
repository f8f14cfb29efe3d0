-- ===== src/Controller/Transaction.antt =====
-- What a change of the node configuration (`applyNodeInfoChange` of
-- service/controller/controller.go) leaves in the core, in the limiter and in the controller.
use xray_r4u.Base.{
  ◌≡◌, ◌≢◌, refl, sym, ◌∙◌, Bool, true, false, Option, none, some, List, [], ◌∷◌, Bytes, bytes_eq,
  bytes_beq, bytes_beq_iff, if◌then◌else◌, map, arith, inl, inr, Option-cases,
}
use xray_r4u.Api.{NodeInfo, UserInfo}
use xray_r4u.GoMap.{lookup, lookup-delete}
use xray_r4u.Limiter.Registry.{add_inbound_limiter, delete_inbound_limiter}
use xray_r4u.Controller.Stream.{Config, resolve_vision}
use xray_r4u.Controller.Core.{XrayCore, VlessUser}
use xray_r4u.Controller.Replace.{
  build_node_tag, build_vless_user, build_anytls_user, remove_old_tag, add_each, add_users,
  add_new_user, add_built_outbound, add_new_tag, Controller, move_inbound, restore_old,
  replace_in_place, apply_node_info_change,
}

module _ (x : XrayCore) (config : Config) where
  open x use {State, Inbound, Outbound, Handler, handler, inbound_tag}

  pub remove_old_tag_local :
      (tag : Bytes) (s : State) (t : Bytes)
      → tag ≢ t
      → handler t (remove_old_tag x config tag s).1 ≡ handler t s
  unfolding remove_old_tag
  remove_old_tag_local tag s t ne = ground (
    arith,
    x.remove_inbound_local tag s t ne,
    x.remove_outbound_local tag (x.remove_inbound tag s).1 t,
  )

  add_each_local :
      (tag : Bytes) (us : List VlessUser) (s : State) (t : Bytes)
      → tag ≢ t
      → handler t (add_each x config tag us s).1 ≡ handler t s
  unfolding add_each
  add_each_local tag [] s t ne = refl
  add_each_local tag (u ∷ us) s t ne =
      ground
        (arith, x.add_user_local tag u s t ne, add_each_local tag us (x.add_user tag u s).1 t ne)

  pub add_new_user_local :
      (us : List UserInfo) (info : NodeInfo) (tag : Bytes) (s : State) (t : Bytes)
      → tag ≢ t
      → handler t (add_new_user x config us info tag s).1 ≡ handler t s
  unfolding add_new_user add_users
  add_new_user_local us info tag s t ne = ground (
    arith,
    x.update_users_local tag (map (build_anytls_user tag) us) s t ne,
    add_each_local tag (map (build_vless_user tag (resolve_vision config info)) us) s t ne,
  )

  module _ (build_inbound : NodeInfo → Bytes → Option Inbound)
      (build_outbound : NodeInfo → Bytes → Option Outbound)
      (tagged : (info : NodeInfo) (tag : Bytes) (i : Inbound)
        → build_inbound info tag ≡ some i
        → inbound_tag i ≡ tag) where
    add_built_outbound_local :
        (o : Option Outbound) (s : State) (t : Bytes)
        → handler t (add_built_outbound x config build_inbound build_outbound o s).1 ≡ handler t s
    unfolding add_built_outbound
    add_built_outbound_local none s t = refl
    add_built_outbound_local (some o) s t = x.add_outbound_local o s t

    pub add_new_tag_local :
        (info : NodeInfo) (tag : Bytes) (s : State) (t : Bytes)
        → tag ≢ t
        → handler t (add_new_tag x config build_inbound build_outbound info tag s).1 ≡ handler t s
    unfolding add_new_tag
    add_new_tag_local info tag s t ne = elim (Option-cases (build_inbound info tag)) [
      | inl e ↦ ground arith
      | inr (i, e) ↦ ground (
        arith,
        x.add_inbound_local i s t (λ h. ne (sym (tagged info tag i e) ∙ h)),
        add_built_outbound_local (build_outbound info tag) (x.add_inbound i s).1 t,
      )
    ]

    module _ (B : Type 0) where
      abbrev World : Type 0
      World = Controller x config build_inbound build_outbound B

      abbrev change : NodeInfo → List UserInfo → World → Bool × World
      change = apply_node_info_change x config build_inbound build_outbound

      restore_old_local :
          (c : World) (s : State) (t : Bytes)
          → c.tag ≢ t
          → handler t (restore_old x config build_inbound build_outbound c s).core ≡ handler t s
      unfolding restore_old
      restore_old_local c s t ne =
          let s1 = (add_new_tag x config build_inbound build_outbound c.node_info c.tag s).1 in
          ground (
            arith,
            add_new_tag_local c.node_info c.tag s t ne,
            add_new_user_local c.user_list c.node_info c.tag s1 t ne,
          )

      -- If an inbound that is built for a tag bears that tag, the change of a node's configuration,
      -- whether it succeeds or fails, leaves every inbound handler as it is that has neither the
      -- node's old tag nor its new one.
      pub apply_node_info_change_local :
          (info : NodeInfo) (us : List UserInfo) (c : World) (t : Bytes)
          → c.tag ≢ t
          → build_node_tag info config.listen_ip ≢ t
          → handler t (change info us c).1.core ≡ handler t c.core
      unfolding apply_node_info_change move_inbound replace_in_place
      apply_node_info_change_local info us c t old_ne new_ne =
          let new_tag = build_node_tag info config.listen_ip in
          let up = add_new_tag x config build_inbound build_outbound in
          let m1 = (up info new_tag c.core).1 in
          let m2 = (add_new_user x config us info new_tag m1).1 in
          let r1 = (remove_old_tag x config c.tag c.core).1 in
          let r2 = (up info c.tag r1).1 in
          let r3 = (add_new_user x config us info c.tag r2).1 in
          ground (
            arith,
            add_new_tag_local info new_tag c.core t new_ne,
            add_new_user_local us info new_tag m1 t new_ne,
            remove_old_tag_local new_tag m2 t new_ne,
            remove_old_tag_local c.tag m2 t old_ne,
            remove_old_tag_local c.tag c.core t old_ne,
            add_new_tag_local info c.tag r1 t old_ne,
            add_new_user_local us info c.tag r2 t old_ne,
            remove_old_tag_local c.tag r3 t old_ne,
            restore_old_local c r2 t old_ne,
            restore_old_local c (remove_old_tag x config c.tag r3).1 t old_ne,
          )

      -- If an inbound that is built for a tag bears that tag: where the new configuration has
      -- another tag and the change fails, at whatever step, the old inbound's handler is as before,
      -- and so are the limiter, the rules, the published node configuration, its tag and the user
      -- list.
      pub failed_move_keeps_old :
          (info : NodeInfo) (us : List UserInfo) (c : World)
          → build_node_tag info config.listen_ip ≢ c.tag
          → (change info us c).0 ≡ false
          → (handler c.tag (change info us c).1.core ≡ handler c.tag c.core)
            × ((change info us c).1.limiter ≡ c.limiter)
            × ((change info us c).1.rules ≡ c.rules)
            × ((change info us c).1.node_info ≡ c.node_info)
            × ((change info us c).1.tag ≡ c.tag)
            × ((change info us c).1.user_list ≡ c.user_list)
      unfolding apply_node_info_change move_inbound
      failed_move_keeps_old info us c ne fails =
          let new_tag = build_node_tag info config.listen_ip in
          let m1 = (add_new_tag x config build_inbound build_outbound info new_tag c.core).1 in
          let m2 = (add_new_user x config us info new_tag m1).1 in
          ground (
            arith,
            bytes_beq_iff new_tag c.tag,
            add_new_tag_local info new_tag c.core c.tag ne,
            add_new_user_local us info new_tag m1 c.tag ne,
            remove_old_tag_local new_tag m2 c.tag ne,
          )

      -- The change publishes the new configuration under its tag exactly if it succeeds, and keeps
      -- the old ones if it fails; it never touches the user list.
      pub apply_node_info_change_publishes :
          (info : NodeInfo) (us : List UserInfo) (c : World)
          → ((change info us c).1.node_info ≡ (if (change info us c).0 then info else c.node_info))
            × ((change info us c).1.tag
                ≡ (if (change info us c).0 then build_node_tag info config.listen_ip else c.tag))
            × ((change info us c).1.user_list ≡ c.user_list)
      unfolding apply_node_info_change move_inbound replace_in_place restore_old
      apply_node_info_change_publishes info us c =
          ground (arith, bytes_beq_iff (build_node_tag info config.listen_ip) c.tag)

      -- After a change that succeeds and moves to another tag, the limiter has the new tag's
      -- registration, nothing of the old tag, and every other inbound as before.
      pub moved_limiter :
          (info : NodeInfo) (us : List UserInfo) (c : World)
          → build_node_tag info config.listen_ip ≢ c.tag
          → (change info us c).0 ≡ true
          → (t : Bytes)
          → lookup t (change info us c).1.limiter ≡ (
              if bytes_beq c.tag t
              then none
              else lookup t (
                  add_inbound_limiter
                    (build_node_tag info config.listen_ip)
                    info.speed_limit
                    us
                    c.limiter))
      unfolding apply_node_info_change move_inbound delete_inbound_limiter
      moved_limiter info us c ne ok t =
          let new_tag = build_node_tag info config.listen_ip in
          ground (
            arith,
            bytes_beq_iff new_tag c.tag,
            lookup-delete c.tag t (add_inbound_limiter new_tag info.speed_limit us c.limiter),
          )
