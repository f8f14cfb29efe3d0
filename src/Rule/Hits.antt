-- ===== src/Rule/Hits.antt =====
-- The hits that `Detect` of common/rule/rule.go counts, and what a drain hands over.
use xray_r4u.Base.{
  ℕ, suc, ◌+◌, ◌≡◌, refl, ap, Bool, none, some, List, [], ◌∷◌, Bytes, ℤ, pos_part, int_beq,
  bytes_beq, bytes_beq_iff, if◌then◌else◌, ◌&&◌, arith, bytes_eq, inl, inr, Option-cases,
}
use xray_r4u.Text.{split, last_part, atoi, IsInt64}
use xray_r4u.GoMap.{IsMap, lookup, lookup-insert, lookup-nil}
use xray_r4u.Api.{DetectRule, DetectResult}
use xray_r4u.Limiter.Registry.{email_key}
use xray_r4u.Limiter.Slots.{bump}
use xray_r4u.Limiter.Users.{atoi-email_key}
use xray_r4u.Rule.Detection.{reject-true}
use xray_r4u.Rule.Manager.{
  DetectKey, key_beq_iff, key_eq, DetectResultSet, RuleManager, count_or_zero, add, to_results,
  drain_all, get_detect_result, record_hit, hit_rule_id, reject, detect, set_or_new,
}

-- The hits of a user on a rule that an inbound holds and has not reported.
abbrev pub hits_in : ℤ → ℤ → DetectResultSet → ℕ
hits_in uid rule s = count_or_zero (lookup (record { uid = uid; rule_id = rule }) s)

abbrev pub set_at : Bytes → RuleManager → DetectResultSet
set_at tag r = set_or_new (lookup tag r.inbound_detect_result)

abbrev pub hits_at : Bytes → ℤ → ℤ → RuleManager → ℕ
hits_at tag uid rule r = hits_in uid rule (set_at tag r)

-- The hits of a user on a rule that a report holds.
abbrev pub reported : ℤ → ℤ → List DetectResult → ℕ
reported uid rule [] = 0
reported uid rule (d ∷ ds) =
    reported uid rule ds
    + (if int_beq d.uid uid && int_beq d.rule_id rule then pos_part d.count else 0)

abbrev pub rules_at : Bytes → RuleManager → List DetectRule
rules_at tag r = elim (lookup tag r.inbound_rule) [ none ↦ [] | some rules ↦ rules ]

add-hits :
    (uid rule u i : ℤ) (s : DetectResultSet)
    → hits_in u i (add uid rule s) ≡ hits_in u i s + bump (int_beq uid u && int_beq rule i)
unfolding add
add-hits uid rule u i s =
    let key : DetectKey = record { uid = uid; rule_id = rule } in
    let at : DetectKey = record { uid = u; rule_id = i } in
    ground (arith, key_beq_iff key at, lookup-insert key at (suc (count_or_zero (lookup key s))) s)

hits_in-nil : (u i : ℤ) → hits_in u i [] ≡ 0
hits_in-nil u i = ap count_or_zero (lookup-nil ℕ (record { uid = u; rule_id = i }))

record_hit-hits :
    (tag t : Bytes) (uid rule u i : ℤ) (r : RuleManager)
    → hits_at t u i (record_hit tag uid rule r)
      ≡ hits_at t u i r + bump (bytes_beq tag t && (int_beq uid u && int_beq rule i))
unfolding record_hit
record_hit-hits tag t uid rule u i r =
    let s = set_at tag r in
    ground (
      arith,
      bytes_beq_iff tag t,
      lookup-insert tag t (add uid rule s) r.inbound_detect_result,
      add-hits uid rule u i s,
    )

module _ (matches : Bytes → Bytes → Bool) where
  reject-hits :
      (tag t : Bytes) (rule : ℤ) (email : Bytes) (uid u i : ℤ) (r : RuleManager)
      → atoi (last_part (split b'|' email)) ≡ some uid
      → hits_at t u i (reject matches tag rule email r).1
        ≡ hits_at t u i r + bump (bytes_beq tag t && (int_beq uid u && int_beq rule i))
  unfolding reject
  reject-hits tag t rule email uid u i r e = rw (e, reject) (record_hit-hits tag t uid rule u i r)

  -- For a connection under the key of a user with a 64-bit uid, one refusal is one hit: for that
  -- uid, on the first rule that matches; a connection that is let through is none. No other count
  -- moves.
  pub detect-hits :
      (r : RuleManager) (tag destination mail : Bytes) (uid : ℤ) (t : Bytes) (u i : ℤ)
      → IsInt64 uid
      → let (refused, r') = detect matches tag destination (email_key tag mail uid) r in
        hits_at t u i r'
        ≡ hits_at t u i r
          + (if refused
              then bump (
                  bytes_beq tag t
                  && (int_beq uid u
                      && int_beq (hit_rule_id matches (rules_at tag r) destination) i))
              else 0)
  unfolding detect
  detect-hits r tag destination mail uid t u i h = elim (Option-cases (lookup tag r.inbound_rule)) [
    | inl e ↦ ground arith
    | inr (rules, e) ↦ ground (
      arith,
      reject-true matches tag (hit_rule_id matches rules destination) (email_key tag mail uid) r,
      reject-hits tag t (hit_rule_id matches rules destination) (email_key tag mail uid) uid u i r
          (atoi-email_key tag mail uid h),
    )
  ]

reported-to_results :
    (u i : ℤ) (s : DetectResultSet) → IsMap s → reported u i (to_results s) ≡ hits_in u i s
unfolding lookup
reported-to_results u i [] m = refl
reported-to_results u i ((k, n) ∷ s) m =
    ground (arith, reported-to_results u i s m.1, key_beq_iff k (record { uid = u; rule_id = i }))

-- The hits of each inbound are a map: no user and rule is counted in two places.
abbrev pub IsCounted : RuleManager → Type 0
IsCounted r = (tag : Bytes) → IsMap (set_at tag r)

-- Where the hit sets are maps, a drain hands over exactly the hits that its inbound held, leaves
-- none there, and moves no count of another inbound.
pub get_detect_result-hits :
    (r : RuleManager) (tag t : Bytes) (u i : ℤ)
    → IsCounted r
    → let (results, r') = get_detect_result tag r in
      (reported u i results ≡ hits_at tag u i r)
      × (hits_at t u i r' ≡ (if bytes_beq tag t then 0 else hits_at t u i r))
unfolding get_detect_result drain_all
get_detect_result-hits r tag t u i c = elim (Option-cases (lookup tag r.inbound_detect_result)) [
  | inl e ↦ ground (arith, hits_in-nil u i, bytes_beq_iff tag t)
  | inr (s, e) ↦ ground (
    arith,
    bytes_beq_iff tag t,
    lookup-insert tag t [] r.inbound_detect_result,
    hits_in-nil u i,
    reported-to_results u i s (rw e at (c tag)),
  )
]
