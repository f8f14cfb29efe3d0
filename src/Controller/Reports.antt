-- ===== src/Controller/Reports.antt =====
-- The periodic `userInfoMonitor` of service/controller/controller.go: the traffic, the online devices
-- and the hits of the audit rules go to the panel, whose answer may name users to drop. The report of
-- the system's status is left out.
use xray_r4u.Base.{
  ◌≡◌, refl, ap, ◌∙◌, Bool, true, false, Option, none, some, List, [], ◌∷◌, Bytes, bytes_eq, ℤ,
  if◌then◌else◌, arith, inl, inr, Bool-cases, Option-cases,
}
use xray_r4u.GoMap.{lookup, lookup-insert_self}
use xray_r4u.Api.{NodeInfo, UserTraffic, OnlineUser, DetectResult}
use xray_r4u.Limiter.Registry.{get_online_device}
use xray_r4u.Rule.Manager.{RuleManager, get_detect_result, drain_all}
use xray_r4u.Controller.Stream.{Config}
use xray_r4u.Controller.Core.{XrayCore}
use xray_r4u.Controller.Replace.{Controller}
use xray_r4u.Controller.Sync.{apply_illegal_kick_uids}
use xray_r4u.Controller.Traffic.{Stats, report_traffic}

-- Whether the panel takes the traffic, and what it answers to the hits: `none` is an error, else the
-- uids to drop.
pub record Panel : Type 0 where
  pub push_traffic : List UserTraffic → Bool
  pub report_illegal : List DetectResult → Option (List ℤ)

-- What a tick has sent of devices and hits; without an inbound in the limiter no devices.
pub record Sent : Type 0 where
  pub online : Option (List OnlineUser)
  pub illegal : List DetectResult

abbrev pub no_hits : List DetectResult → Bool
no_hits [] = true
no_hits (_ ∷ _) = false

module _ (x : XrayCore) (config : Config) where
  open x use {Inbound, Outbound}

  module _ (build_inbound : NodeInfo → Bytes → Option Inbound)
      (build_outbound : NodeInfo → Bytes → Option Outbound) (B : Type 0) (stats : Stats) where
    abbrev World : Type 0
    World = Controller x config build_inbound build_outbound B

    abbrev pub after_answer : Option (List ℤ) → World → World
    after_answer none c = c
    after_answer (some uids) c =
        apply_illegal_kick_uids x config build_inbound build_outbound B uids c

    -- The hits are taken out of the counters before they are sent, and not put back.
    unfoldable pub report_hits : Panel → World → List DetectResult × World
    unfolding get_detect_result
    report_hits p c =
        let (hits, rules') = get_detect_result c.tag c.rules in
        let drained : World = record c { rules = rules' } in
        (hits, if no_hits hits then drained else after_answer (p.report_illegal hits) drained)

    unfoldable pub user_info_monitor :
        Bool → Panel → World → stats.State → Sent × (World × stats.State)
    unfolding report_hits report_traffic get_online_device
    user_info_monitor closed p c s =
        let (hits, c') = report_hits p c in
        let s' =
          report_traffic stats p.push_traffic config.disable_upload_traffic c.tag c.user_list s in
        let sent : Sent = record { online = get_online_device c.tag c.limiter; illegal = hits } in
        if closed then (record { online = none; illegal = [] }, (c, s)) else (sent, (c', s'))

    drained_hits :
        (tag : Bytes) (r : RuleManager) → (get_detect_result tag (get_detect_result tag r).1).0 ≡ []
    unfolding get_detect_result drain_all
    drained_hits tag r = elim (Option-cases (lookup tag r.inbound_detect_result)) [
      | inl e ↦ rw (e, get_detect_result) (rw e refl)
      | inr (set, e) ↦ ground (arith, e, lookup-insert_self tag [] r.inbound_detect_result)
    ]

    kick_keeps :
        (uids : List ℤ) (c : World)
        → let c' = apply_illegal_kick_uids x config build_inbound build_outbound B uids c in
          (c'.tag ≡ c.tag) × (c'.rules ≡ c.rules)
    unfolding apply_illegal_kick_uids
    kick_keeps uids c = ground arith

    after_answer-keeps :
        (o : Option (List ℤ)) (c : World)
        → ((after_answer o c).tag ≡ c.tag) × ((after_answer o c).rules ≡ c.rules)
    after_answer-keeps none c = (refl, refl)
    after_answer-keeps (some uids) c = kick_keeps uids c

    report_hits-keeps :
        (p : Panel) (c : World)
        → let c' = (report_hits p c).1 in
          (c'.tag ≡ c.tag) × (c'.rules ≡ (get_detect_result c.tag c.rules).1)
    unfolding report_hits
    report_hits-keeps p c =
        let hits = (get_detect_result c.tag c.rules).0 in
        let drained : World = record c { rules = (get_detect_result c.tag c.rules).1 } in
        elim (Bool-cases (no_hits hits)) [
          | inl m ↦ rw m (refl, refl)
          | inr m ↦ rw m (after_answer-keeps (p.report_illegal hits) drained)
        ]

    -- A hit is sent once: a tick right after another one has none to send, whatever the panel
    -- answered and whomever it dropped; hits of a report that failed are lost.
    pub user_info_monitor_once :
        (p q : Panel) (c : World) (s : stats.State)
        → let next = (user_info_monitor false p c s).1 in
          (user_info_monitor false q next.0 next.1).0.illegal ≡ []
    unfolding user_info_monitor report_hits
    user_info_monitor_once p q c s =
        let d = (report_hits p c).1 in
        let kept = report_hits-keeps p c in
        ap (λ (t : Bytes). (get_detect_result t d.rules).0) kept.0
        ∙ ap (λ (r : RuleManager). (get_detect_result c.tag r).0) kept.1
        ∙ drained_hits c.tag c.rules
