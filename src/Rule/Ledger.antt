-- ===== src/Rule/Ledger.antt =====
-- A history of the rule manager of common/rule/rule.go: sequences of its calls.
use xray_r4u.Base.{
  ℕ, suc, ◌+◌, ◌≡◌, Bool, List, [], ◌∷◌, Bytes, ℤ, int_beq, bytes_beq, bytes_beq_iff, if◌then◌else◌,
  ◌&&◌, arith, bytes_eq, inl, inr, Option-cases, Bool-cases, All,
}
use xray_r4u.Text.{IsInt64, split, last_part, atoi}
use xray_r4u.GoMap.{lookup, lookup-insert, insert-IsMap}
use xray_r4u.Api.{DetectRule}
use xray_r4u.Limiter.Registry.{email_key}
use xray_r4u.Limiter.Slots.{bump}
use xray_r4u.Rule.Manager.{
  RuleManager, DetectResultSet, DetectKey, key_eq, count_or_zero, add, drain_all, update_rule,
  get_detect_result, hit_rule_id, no_hit, record_hit, reject, detect,
}
use xray_r4u.Rule.Hits.{
  hits_at, reported, rules_at, set_at, IsCounted, detect-hits, get_detect_result-hits,
}

-- A connection of a user to a destination, a report, and a new rule list, each on one inbound.
pub data Call : Type 0 where
  visit : Bytes → Bytes → Bytes → ℤ → Call
  drain : Bytes → Call
  update : Bytes → List DetectRule → Call

abbrev IsCall : Call → Type 0
IsCall (visit tag destination mail uid) = IsInt64 uid
IsCall (drain tag) = Unit
IsCall (update tag rules) = Unit

module _ (matches : Bytes → Bytes → Bool) where
  pub step : Call → RuleManager → RuleManager
  step (visit tag destination mail uid) r =
      (detect matches tag destination (email_key tag mail uid) r).1
  step (drain tag) r = (get_detect_result tag r).1
  step (update tag rules) r = update_rule tag rules r

  -- Of one user and one rule on one inbound: the refusals of a call, and what it reports.
  module _ (t : Bytes) (u i : ℤ) where
    pub refusals : Call → RuleManager → ℕ
    refusals (visit tag destination mail uid) r =
        if (detect matches tag destination (email_key tag mail uid) r).0
        then bump (
            bytes_beq tag t
            && (int_beq uid u && int_beq (hit_rule_id matches (rules_at tag r) destination) i))
        else 0
    refusals (drain tag) r = 0
    refusals (update tag rules) r = 0

    pub reports : Call → RuleManager → ℕ
    reports (drain tag) r = if bytes_beq tag t then reported u i (get_detect_result tag r).0 else 0
    reports _ r = 0

    pub total_refusals : List Call → RuleManager → ℕ
    total_refusals [] r = 0
    total_refusals (c ∷ cs) r = refusals c r + total_refusals cs (step c r)

    pub total_reports : List Call → RuleManager → ℕ
    total_reports [] r = 0
    total_reports (c ∷ cs) r = reports c r + total_reports cs (step c r)

  pub run : List Call → RuleManager → RuleManager
  run [] r = r
  run (c ∷ cs) r = run cs (step c r)

  record_hit-IsCounted :
      (tag : Bytes) (uid rule : ℤ) (r : RuleManager)
      → IsCounted r
      → IsCounted (record_hit tag uid rule r)
  unfolding record_hit add
  record_hit-IsCounted tag uid rule r c t =
      let key : DetectKey = record { uid = uid; rule_id = rule } in
      let s = set_at tag r in
      ground (
        arith,
        c t,
        c tag,
        insert-IsMap key (suc (count_or_zero (lookup key s))) s,
        lookup-insert tag t (add uid rule s) r.inbound_detect_result,
      )

  reject-IsCounted :
      (tag : Bytes) (rule : ℤ) (email : Bytes) (r : RuleManager)
      → IsCounted r
      → IsCounted (reject matches tag rule email r).1
  unfolding reject
  reject-IsCounted tag rule email r c = elim (Option-cases (atoi (last_part (split b'|' email)))) [
    | inl e ↦ rw (e, reject) c
    | inr (uid, e) ↦ rw (e, reject) (record_hit-IsCounted tag uid rule r c)
  ]

  detect-IsCounted :
      (tag destination email : Bytes) (r : RuleManager)
      → IsCounted r
      → IsCounted (detect matches tag destination email r).1
  unfolding detect
  detect-IsCounted tag destination email r c = elim (Option-cases (lookup tag r.inbound_rule)) [
    | inl e ↦ rw (e, detect) c
    | inr (rules, e) ↦ elim (Bool-cases (int_beq (hit_rule_id matches rules destination) no_hit)) [
      | inl miss ↦ rw (e, detect, miss) c
      | inr hit ↦ rw (e, detect, hit) (reject-IsCounted tag _ email r c)
    ]
  ]

  get_detect_result-IsCounted :
      (tag : Bytes) (r : RuleManager) → IsCounted r → IsCounted (get_detect_result tag r).1
  unfolding get_detect_result drain_all
  get_detect_result-IsCounted tag r c t =
      ground (arith, c t, lookup-insert {V = DetectResultSet} tag t [] r.inbound_detect_result)

  update_rule-sets :
      (tag : Bytes) (rules : List DetectRule) (r : RuleManager)
      → (update_rule tag rules r).inbound_detect_result ≡ r.inbound_detect_result
  unfolding update_rule
  update_rule-sets tag rules r = ground arith

  step-IsCounted : (call : Call) (r : RuleManager) → IsCounted r → IsCounted (step call r)
  unfolding step
  step-IsCounted (visit tag destination mail uid) r c =
      detect-IsCounted tag destination (email_key tag mail uid) r c
  step-IsCounted (drain tag) r c = get_detect_result-IsCounted tag r c
  step-IsCounted (update tag rules) r c = λ t. rw (update_rule-sets tag rules r) (c t)

  step-hits :
      (t : Bytes) (u i : ℤ) (call : Call) (r : RuleManager)
      → IsCall call
      → IsCounted r
      → reports t u i call r + hits_at t u i (step call r) ≡ refusals t u i call r + hits_at t u i r
  unfolding step reports refusals
  step-hits t u i (visit tag destination mail uid) r h c =
      omega (arith, detect-hits matches r tag destination mail uid t u i h)
  step-hits t u i (drain tag) r h c =
      ground (arith, bytes_beq_iff tag t, get_detect_result-hits r tag t u i c)
  step-hits t u i (update tag rules) r h c = ground (arith, update_rule-sets tag rules r)

  -- Over any history of connections of users with 64-bit uids, of reports and of rule updates, from
  -- a state whose hit sets are maps: what was reported of a user and a rule and what is still held
  -- add up to the refusals and what was held before.
  pub run-hits :
      (t : Bytes) (u i : ℤ) (calls : List Call) (r : RuleManager)
      → All IsCall calls
      → IsCounted r
      → total_reports t u i calls r + hits_at t u i (run calls r)
        ≡ total_refusals t u i calls r + hits_at t u i r
  unfolding run total_reports total_refusals
  run-hits t u i [] r h c = omega arith
  run-hits t u i (call ∷ calls) r h c = omega (
    arith,
    step-hits t u i call r h.0 c,
    run-hits t u i calls (step call r) h.1 (step-IsCounted call r c),
  )
