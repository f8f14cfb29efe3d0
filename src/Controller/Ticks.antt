-- ===== src/Controller/Ticks.antt =====
-- What a tick of `nodeInfoMonitor` (service/controller/controller.go) does, and what it never does.
use xray_r4u.Base.{
  ◌≡◌, ◌≢◌, refl, true, false, Option, none, some, List, [], ◌∷◌, Bytes, ℤ, int_eq, int_beq,
  int_beq_iff, bytes_beq_iff, codes, ◌↔◌, arith, inl, inr, Bool-cases,
}
use xray_r4u.GoMap.{lookup}
use xray_r4u.Text.{equal_fold}
use xray_r4u.Api.{NodeInfo, UserInfo, DetectRule}
use xray_r4u.Controller.Stream.{Config}
use xray_r4u.Controller.Core.{XrayCore}
use xray_r4u.Controller.Changed.{node_info_equal_iff}
use xray_r4u.Controller.Diff.{
  UserMap, by_uid, deleted_users, changed_users, new_users, compare_user_list, is_changed, IsKeyed,
  by_uid-IsKeyed,
}
use xray_r4u.Controller.Replace.{Controller}
use xray_r4u.Controller.Sync.{sync_users, sync_vless}
use xray_r4u.Controller.Builder.Settings.{CertConfig}
use xray_r4u.Controller.Monitor.{
  Answers, Tick, Renewal, unneeded, renew, nil_pointer, finish, check_cert, take_rules,
  take_answers, node_info_monitor,
}

-- Every entry of the second map is what the first one has for its key.
abbrev Covers : UserMap → UserMap → Type 0
Covers full [] = Unit
Covers full ((uid, u) ∷ m) = (lookup uid full ≡ some u) × Covers full m

Covers-cons :
    (uid : ℤ) (u : UserInfo) (full m : UserMap)
    → lookup uid m ≡ none
    → Covers full m
    → Covers ((uid, u) ∷ full) m
unfolding lookup
Covers-cons uid u full [] absent h = tt
Covers-cons uid u full ((i, v) ∷ m) absent h = elim (Bool-cases (int_beq i uid)) [
  | inl same ↦ absurd (ground (arith, same, absent))
  | inr other ↦ (
    ground (arith, other, h.0, int_beq_iff i uid, int_beq_iff uid i),
    Covers-cons uid u full m (rw other at absent) h.1,
  )
]

Covers-self : (m : UserMap) → IsKeyed m → Covers m m
unfolding lookup
Covers-self [] k = tt
Covers-self ((uid, u) ∷ m) k =
    (ground (arith, int_beq_iff uid uid), Covers-cons uid u m m k.1 (Covers-self m k.2))

unchanged : (u : UserInfo) → is_changed u u ≡ false
unchanged u = ground (arith, bytes_beq_iff u.uuid u.uuid, bytes_beq_iff u.email u.email)

deleted-Covers : (full m : UserMap) → Covers full m → deleted_users full m ≡ []
unfolding deleted_users
deleted-Covers full [] h = refl
deleted-Covers full ((uid, u) ∷ m) h = ground (arith, h.0, unchanged u, deleted-Covers full m h.1)

changed-Covers : (full m : UserMap) → Covers full m → changed_users full m ≡ []
unfolding changed_users
changed-Covers full [] h = refl
changed-Covers full ((uid, u) ∷ m) h = ground (arith, h.0, unchanged u, changed-Covers full m h.1)

new-Covers : (full m : UserMap) → Covers full m → new_users full m ≡ []
unfolding new_users
new-Covers full [] h = refl
new-Covers full ((uid, u) ∷ m) h = ground (arith, h.0, new-Covers full m h.1)

compare_user_list_same : (us : List UserInfo) → compare_user_list us us ≡ ([], [])
unfolding compare_user_list
compare_user_list_same us =
    let m = by_uid us [] in
    let covered = Covers-self m (by_uid-IsKeyed us [] tt) in
    ground (arith, deleted-Covers m m covered, changed-Covers m m covered, new-Covers m m covered)

never_nil : (c : CertConfig) (info : NodeInfo) → check_cert (some c) info ≢ nil_pointer
unfolding check_cert
never_nil c info e = ground arith

check_cert-nil_pointer :
    (cert : Option CertConfig) (info : NodeInfo)
    → (check_cert cert info ≡ nil_pointer) ↔ ((cert ≡ none) × (info.enable_tls ≡ true))
unfolding check_cert
check_cert-nil_pointer none info = elim (Bool-cases info.enable_tls) [
  | inl t ↦ rw t (λ _. (refl, refl), λ _. refl)
  | inr f ↦ rw f (λ e. absurd (ground arith), λ w. absurd (ground (arith, w.1)))
]
check_cert-nil_pointer (some c) info =
    (λ e. absurd (never_nil c info e), λ w. absurd (ground (arith, w.0)))

module _ (x : XrayCore) (config : Config) where
  open x use {Inbound, Outbound}

  module _ (build_inbound : NodeInfo → Bytes → Option Inbound)
      (build_outbound : NodeInfo → Bytes → Option Outbound) (B : Type 0) where
    abbrev Node : Type 0
    Node = Controller x config build_inbound build_outbound B

    same_list_keeps :
        (info : NodeInfo) (c : Node)
        → (sync_vless x config build_inbound build_outbound B info c.user_list c).core ≡ c.core
    unfolding sync_vless
    same_list_keeps info c = rw (compare_user_list_same c.user_list) refl

    -- A second takeover of the same list by a VLESS node calls nothing of the core: an addition or
    -- a removal that failed the first time is not tried again.
    pub repeated-sync_users :
        (info : NodeInfo) (us : List UserInfo) (c : Node)
        → equal_fold info.node_type (codes "anytls") ≡ false
        → let c' = sync_users x config build_inbound build_outbound B info us c in
          (sync_users x config build_inbound build_outbound B info us c').core ≡ c'.core
    unfolding sync_users
    repeated-sync_users info us c vless =
        let first = sync_vless x config build_inbound build_outbound B info us c in
        let c' : Node = record first { user_list = us } in rw vless (same_list_keeps info c')

    rules_keep_node :
        (rules : Option (List DetectRule)) (c : Node)
        → (take_rules x config build_inbound build_outbound B rules c).node_info ≡ c.node_info
    unfolding take_rules
    rules_keep_node none c = refl
    rules_keep_node (some rules) c = ground arith

    finish-panicked :
        (c : Node) (r : Renewal)
        → (finish x config build_inbound build_outbound B c r ≡ Tick.panicked) ↔ (r ≡ nil_pointer)
    finish-panicked c unneeded = (λ e. absurd (ground arith), λ e. absurd (ground arith))
    finish-panicked c (renew cert) = (λ e. absurd (ground arith), λ e. absurd (ground arith))
    finish-panicked c nil_pointer = (λ _. refl, λ _. refl)

    -- On an unchanged node a tick whose answers are there panics exactly if the node has TLS, be it
    -- REALITY, and the configuration has no CertConfig.
    pub node_info_monitor_panics :
        (cert : Option CertConfig) (a : Answers) (us : List UserInfo) (c : Node)
        → a.node ≡ some c.node_info
        → a.users ≡ some us
        → (node_info_monitor x config build_inbound build_outbound B cert false a c ≡ Tick.panicked)
          ↔ ((cert ≡ none) × (c.node_info.enable_tls ≡ true))
    unfolding node_info_monitor take_answers
    node_info_monitor_panics cert a us c node users =
        let info = c.node_info in
        let same = take_rules x config build_inbound build_outbound B a.rules c in
        let synced = sync_users x config build_inbound build_outbound B info us same in
        let equal = (node_info_equal_iff info info).1 refl in
        let ends = finish-panicked synced (check_cert cert info) in
        let judged = check_cert-nil_pointer cert info in
        rw (node, users, equal, rules_keep_node a.rules c)
          (λ e. judged.0 (ends.0 e), λ w. ends.1 (judged.1 w))
