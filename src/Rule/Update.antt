-- ===== src/Rule/Update.antt =====
-- `UpdateRule` and `DeleteRule`, and the rules of the local list, which carry the id -1.
use xray_r4u.Base.{
  ◌≡◌, ◌≢◌, refl, Bool, true, false, Option, none, some, List, [], ◌∷◌, ◌++◌, Bytes, int_beq_iff,
  bytes_beq, bytes_beq_iff, if◌then◌else◌, ◌||◌, arith, bytes_eq, inl, inr, Option-cases, All,
}
use xray_r4u.GoMap.{lookup, lookup-insert, lookup-delete_self}
use xray_r4u.Api.{DetectRule}
use xray_r4u.Rule.Manager.{
  RuleManager, pattern_text, detect_rules_equal, update_rule, delete_rule, no_hit, hits_pattern,
  hit_rule_id, detect,
}

-- A pattern that is not confused with nil: some text, and not the empty one.
abbrev pub IsProper : DetectRule → Type 0
IsProper rule = pattern_text rule.pattern ≢ []

pattern-eq : (a b : Option Bytes) → pattern_text a ≢ [] → pattern_text a ≡ pattern_text b → a ≡ b
pattern-eq none b h e = absurd (h refl)
pattern-eq (some s) none h e = absurd (h e)
pattern-eq (some s) (some t) h e = cc

detect_rules_equal-eq :
    (a b : List DetectRule) → All IsProper a → detect_rules_equal a b ≡ true → a ≡ b
unfolding detect_rules_equal
detect_rules_equal-eq [] [] p h = refl
detect_rules_equal-eq [] (b ∷ bs) p h = cc
detect_rules_equal-eq (a ∷ xs) [] p h = cc
detect_rules_equal-eq (a ∷ xs) (b ∷ ys) p h = ground (
  arith,
  int_beq_iff a.id b.id,
  bytes_beq_iff (pattern_text a.pattern) (pattern_text b.pattern),
  pattern-eq a.pattern b.pattern p.0,
  detect_rules_equal-eq xs ys p.1,
)

abbrev pub AllProper : Option (List DetectRule) → Type 0
AllProper none = Unit
AllProper (some rules) = All IsProper rules

-- Where no old rule of the inbound has an empty or a nil pattern, the comparison spares a store,
-- never an update: after a call the inbound has exactly the new rules, and no other inbound's rules
-- move.
pub update_rule_lem :
    (r : RuleManager) (tag t : Bytes) (rules : List DetectRule)
    → AllProper (lookup tag r.inbound_rule)
    → lookup t (update_rule tag rules r).inbound_rule
      ≡ (if bytes_beq tag t then some rules else lookup t r.inbound_rule)
unfolding update_rule
update_rule_lem r tag t rules p = elim (Option-cases (lookup tag r.inbound_rule)) [
  | inl e ↦ ground (arith, lookup-insert tag t rules r.inbound_rule)
  | inr (old, e) ↦ ground (
    arith,
    bytes_beq_iff tag t,
    lookup-insert tag t rules r.inbound_rule,
    detect_rules_equal-eq old rules (rw e at p),
  )
]

module _ (matches : Bytes → Bytes → Bool) where
  -- After the rules of an inbound are deleted, it refuses nothing and records nothing.
  pub detect-delete_rule :
      (r : RuleManager) (tag destination email : Bytes)
      → detect matches tag destination email (delete_rule tag r) ≡ (false, delete_rule tag r)
  unfolding detect delete_rule
  detect-delete_rule r tag destination email = ground (arith, lookup-delete_self tag r.inbound_rule)

  -- Some rule of the list matches.
  abbrev pub some_match : List DetectRule → Bytes → Bool
  some_match [] destination = false
  some_match (rule ∷ rules) destination =
      hits_pattern matches rule.pattern destination || some_match rules destination

  hit_rule_id-local :
      (local panel : List DetectRule) (destination : Bytes)
      → All (λ rule. rule.id ≡ no_hit) local
      → some_match local destination ≡ true
      → hit_rule_id matches (local ++ panel) destination ≡ no_hit
  unfolding hit_rule_id
  hit_rule_id-local [] panel destination h m = cc
  hit_rule_id-local (rule ∷ local) panel destination h m =
      ground (arith, hit_rule_id-local local panel destination h.1)

  -- A destination that a local rule forbids is let through and not recorded, also where a panel
  -- rule behind it forbids it too: a hit on the id -1 is read as no hit.
  pub detect_local_rule :
      (r : RuleManager) (tag destination email : Bytes) (local panel : List DetectRule)
      → lookup tag r.inbound_rule ≡ some (local ++ panel)
      → All (λ rule. rule.id ≡ no_hit) local
      → some_match local destination ≡ true
      → detect matches tag destination email r ≡ (false, r)
  unfolding detect
  detect_local_rule r tag destination email local panel e h m =
      rw (e, detect, hit_rule_id-local local panel destination h m)
