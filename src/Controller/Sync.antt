-- ===== src/Controller/Sync.antt =====
-- How a controller takes over a new user list on an unchanged node, the last part of
-- `nodeInfoMonitor`, and drops the users that the panel's policy names, `applyIllegalKickUIDs`, both
-- of service/controller/controller.go, with `removeUsers` of control.go.
use xray_r4u.Base.{
  Bool, true, false, Option, none, some, List, [], ◌∷◌, Bytes, ℤ, pos, ltb_ℤ, int_beq,
  if◌then◌else◌, ◌&&◌, ◌||◌, not, codes, map, keep,
}
use xray_r4u.Text.{equal_fold}
use xray_r4u.Api.{NodeInfo, UserInfo}
use xray_r4u.Limiter.Registry.{Limiter, key_of, update_inbound_limiter, delete_users_from_limiter}
use xray_r4u.Controller.Stream.{Config}
use xray_r4u.Controller.Diff.{compare_user_list}
use xray_r4u.Controller.Core.{XrayCore}
use xray_r4u.Controller.Replace.{build_anytls_user, add_new_user, Controller}

abbrev pub no_users : List UserInfo → Bool
no_users [] = true
no_users (_ ∷ _) = false

-- An update of an unknown inbound is an error, which is logged.
unfoldable pub refresh_limiter : {B : Type 0} → Bytes → List UserInfo → Limiter B → Limiter B
refresh_limiter tag us l = elim (update_inbound_limiter tag us l) [ none ↦ l | some l' ↦ l' ]

unfoldable pub purge_limiter : {B : Type 0} → Bytes → List UserInfo → Limiter B → Limiter B
purge_limiter tag us l = if no_users us then l else delete_users_from_limiter tag us l

-- The uids of the policy that are users' at all.
abbrev pub is_kicked : List ℤ → ℤ → Bool
is_kicked [] uid = false
is_kicked (i ∷ is) uid = (ltb_ℤ (pos 0) i && int_beq i uid) || is_kicked is uid

module _ (x : XrayCore) (config : Config) where
  open x use {
    State, Inbound, Outbound, remove_user, update_users, has_user_manager, has_anytls_server,
  }

  unfoldable pub remove_each : Bytes → List UserInfo → State → Bool × State
  remove_each tag [] s = (true, s)
  remove_each tag (u ∷ us) s =
      let (removed, s') = remove_user tag (key_of tag u) s in
      let rest = remove_each tag us s' in if removed then rest else (false, s')

  unfoldable pub remove_users : Bytes → List UserInfo → State → Bool × State
  unfolding remove_each
  remove_users tag us s = if has_user_manager tag s then remove_each tag us s else (false, s)

  module _ (build_inbound : NodeInfo → Bytes → Option Inbound)
      (build_outbound : NodeInfo → Bytes → Option Outbound) (B : Type 0) where
    abbrev World : Type 0
    World = Controller x config build_inbound build_outbound B

    -- AnyTLS: the server takes the whole list; without a server nothing is done.
    unfoldable pub sync_anytls : List UserInfo → World → World
    unfolding purge_limiter refresh_limiter
    sync_anytls new c =
        let deleted = (compare_user_list c.user_list new).0 in
        if has_anytls_server c.tag c.core
        then record c {
          core = update_users c.tag (map (build_anytls_user c.tag) new) c.core;
          limiter = refresh_limiter c.tag new (purge_limiter c.tag deleted c.limiter);
        }
        else c

    -- VLESS: the users that left go, the others come, and all limits are refreshed.
    unfoldable pub sync_vless : NodeInfo → List UserInfo → World → World
    unfolding purge_limiter refresh_limiter remove_users
    sync_vless info new c =
        let (deleted, added) = compare_user_list c.user_list new in
        let core1 = if no_users deleted then c.core else (remove_users c.tag deleted c.core).1 in
        let core2 =
          if no_users added then core1 else (add_new_user x config added info c.tag core1).1 in
        let l1 = purge_limiter c.tag deleted c.limiter in
        let l2 = if no_users added then l1 else refresh_limiter c.tag added l1 in
        record c {
          core = core2;
          limiter = if no_users new then l2 else refresh_limiter c.tag new l2;
        }

    unfoldable pub sync_users : NodeInfo → List UserInfo → World → World
    unfolding sync_anytls sync_vless
    sync_users info new c =
        let synced =
          if equal_fold info.node_type (codes "anytls")
          then sync_anytls new c
          else sync_vless info new c in
        record synced { user_list = new }

    -- The report's tag is the tag that the state still has.
    unfoldable pub apply_illegal_kick_uids : List ℤ → World → World
    unfolding remove_users
    apply_illegal_kick_uids uids c =
        let deleted = keep (λ u. is_kicked uids u.uid) c.user_list in
        let kept = keep (λ u. not (is_kicked uids u.uid)) c.user_list in
        let core1 =
          if equal_fold c.node_info.node_type (codes "anytls")
          then (if has_anytls_server c.tag c.core
              then update_users c.tag (map (build_anytls_user c.tag) kept) c.core
              else c.core)
          else (remove_users c.tag deleted c.core).1 in
        if no_users deleted then c else record c {
          core = core1;
          limiter = delete_users_from_limiter c.tag deleted c.limiter;
          user_list = kept;
        }
