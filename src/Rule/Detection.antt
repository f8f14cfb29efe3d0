-- ===== src/Rule/Detection.antt =====
-- Which connections `Detect` of common/rule/rule.go refuses.
use xray_r4u.Base.{
  ◌≡◌, ◌≢◌, ◌↔◌, refl, sym, ◌∙◌, Bool, true, false, Option, none, some, List, [], ◌∷◌, Bytes, ℤ,
  int_beq, int_beq_iff, arith, bytes_eq, inl, inr, Option-cases, Bool-cases,
}
use xray_r4u.GoMap.{lookup}
use xray_r4u.Api.{DetectRule}
use xray_r4u.Rule.Manager.{key_eq, RuleManager, no_hit, hits_pattern, hit_rule_id, reject, detect}

module _ (matches : Bytes → Bytes → Bool) where
  -- The rule with this id is the first of the list that matches.
  pub data FirstMatch (destination : Bytes) (id : ℤ) : List DetectRule → Type 0 where
    here :
        (rule : DetectRule) (rules : List DetectRule)
        → hits_pattern matches rule.pattern destination ≡ true
        → rule.id ≡ id
        → FirstMatch destination id (rule ∷ rules)
    later :
        (rule : DetectRule) (rules : List DetectRule)
        → hits_pattern matches rule.pattern destination ≡ false
        → FirstMatch destination id rules
        → FirstMatch destination id (rule ∷ rules)

  FirstMatch-hit_rule_id :
      {destination : Bytes} {id : ℤ} {rules : List DetectRule}
      → FirstMatch destination id rules
      → hit_rule_id matches rules destination ≡ id
  unfolding hit_rule_id
  FirstMatch-hit_rule_id (here rule rules hit e) = ground arith
  FirstMatch-hit_rule_id (later rule rules miss m) = ground (arith, FirstMatch-hit_rule_id m)

  hit_rule_id-FirstMatch :
      (rules : List DetectRule) (destination : Bytes)
      → hit_rule_id matches rules destination ≢ no_hit
      → FirstMatch destination (hit_rule_id matches rules destination) rules
  unfolding hit_rule_id
  hit_rule_id-FirstMatch [] destination h = absurd (h refl)
  hit_rule_id-FirstMatch (rule ∷ rules) destination h =
      elim (Bool-cases (hits_pattern matches rule.pattern destination)) [
        | inl hit ↦ rw hit (here rule rules hit refl)
        | inr miss ↦
            rw miss (
              later rule rules miss (hit_rule_id-FirstMatch rules destination (λ e. h (rw miss e))))
      ]

  -- The rules of an inbound refuse a destination under this id.
  abbrev pub Forbids : Option (List DetectRule) → Bytes → ℤ → Type 0
  Forbids none destination id = ⊥
  Forbids (some rules) destination id = FirstMatch destination id rules × (id ≢ no_hit)

  hit_ne :
      (rules : List DetectRule) (destination : Bytes)
      → int_beq (hit_rule_id matches rules destination) no_hit ≡ false
      → hit_rule_id matches rules destination ≢ no_hit
  hit_ne rules destination h e =
      ground (arith, int_beq_iff (hit_rule_id matches rules destination) no_hit)

  not_missed :
      (rules : List DetectRule) (destination : Bytes)
      → int_beq (hit_rule_id matches rules destination) no_hit ≡ true
      → (id : ℤ) × (FirstMatch destination id rules × (id ≢ no_hit))
      → ⊥
  not_missed rules destination miss (id, m) = m.1 (
      sym (FirstMatch-hit_rule_id m.0)
      ∙ (int_beq_iff (hit_rule_id matches rules destination) no_hit).0 miss)

  pub reject-true :
      (tag : Bytes) (id : ℤ) (email : Bytes) (r : RuleManager)
      → (reject matches tag id email r).0 ≡ true
  unfolding reject
  reject-true tag id email r = ground arith

  -- A connection is refused exactly if the first rule that matches has an id other than -1.
  pub detect_refuses :
      (r : RuleManager) (tag destination email : Bytes)
      → ((detect matches tag destination email r).0 ≡ true)
        ↔ ((id : ℤ) × Forbids (lookup tag r.inbound_rule) destination id)
  unfolding detect
  detect_refuses r tag destination email = elim (Option-cases (lookup tag r.inbound_rule)) [
    | inl e ↦ rw (e, detect) (λ h. absurd (ground arith), λ w. absurd w.1)
    | inr (rules, e) ↦ elim (Bool-cases (int_beq (hit_rule_id matches rules destination) no_hit)) [
      | inl miss ↦ rw (e, detect, miss) (λ h. cc, λ w. absurd (not_missed rules destination miss w))
      | inr hit ↦
          rw (e, detect, hit)
            (
              λ _. (
                hit_rule_id matches rules destination,
                (
                  hit_rule_id-FirstMatch rules destination (hit_ne rules destination hit),
                  hit_ne rules destination hit,
                ),
              ),
              λ _. reject-true tag _ email r,
            )
    ]
  ]
