-- ===== src/Rule/Manager.antt =====
-- The audit rules and the hits of each inbound (common/rule/rule.go). Each method is one step: its
-- maps are replaced or loaded atomically, and the counters change under their mutex. How a pattern
-- matches is left to the regexp engine: `matches source destination` is an argument.
use xray_r4u.Base.{
  ℕ, suc, ◌≡◌, ◌↔◌, Bool, true, false, Option, none, some, List, [], ◌∷◌, Bytes, ℤ, pos, negsuc,
  int_beq, int_beq_iff, bytes_beq, if◌then◌else◌, ◌&&◌, Eq, arith, bytes_eq,
}
use xray_r4u.Text.{split, last_part, atoi}
use xray_r4u.GoMap.{Map, lookup, insert, delete}
use xray_r4u.Api.{DetectRule, DetectResult}

pub record DetectKey : Type 0 where
  pub uid : ℤ
  pub rule_id : ℤ

abbrev pub key_beq : DetectKey → DetectKey → Bool
key_beq a b = int_beq a.uid b.uid && int_beq a.rule_id b.rule_id

pub key_beq_iff : (a b : DetectKey) → (key_beq a b ≡ true) ↔ (a ≡ b)
key_beq_iff a b = ground (arith, int_beq_iff a.uid b.uid, int_beq_iff a.rule_id b.rule_id)

instance abbrev pub key_eq : Eq DetectKey
key_eq = record { beq = key_beq; beq_iff = key_beq_iff }

abbrev pub DetectResultSet : Type 0
DetectResultSet = Map DetectKey ℕ

abbrev pub count_or_zero : Option ℕ → ℕ
count_or_zero none = 0
count_or_zero (some n) = n

unfoldable pub add : ℤ → ℤ → DetectResultSet → DetectResultSet
add uid rule_id s =
    let key : DetectKey = record { uid = uid; rule_id = rule_id } in
    insert key (suc (count_or_zero (lookup key s))) s

abbrev pub to_results : DetectResultSet → List DetectResult
to_results [] = []
to_results ((k, n) ∷ s) = record { uid = k.uid; rule_id = k.rule_id; count = pos n } ∷ to_results s

-- The entries, and the emptied set.
unfoldable pub drain_all : DetectResultSet → List DetectResult × DetectResultSet
drain_all s = (to_results s, [])

pub record RuleManager : Type 0 where
  pub inbound_rule : Map Bytes (List DetectRule)
  pub inbound_detect_result : Map Bytes DetectResultSet

-- The source text of a pattern; a nil pattern counts as the empty text.
abbrev pub pattern_text : Option Bytes → Bytes
pattern_text none = []
pattern_text (some source) = source

unfoldable pub detect_rules_equal : List DetectRule → List DetectRule → Bool
detect_rules_equal [] [] = true
detect_rules_equal (a ∷ xs) (b ∷ ys) =
    int_beq a.id b.id
    && (bytes_beq (pattern_text a.pattern) (pattern_text b.pattern) && detect_rules_equal xs ys)
detect_rules_equal _ _ = false

unfoldable pub update_rule : Bytes → List DetectRule → RuleManager → RuleManager
update_rule tag rules r = elim (lookup tag r.inbound_rule) [
  | none ↦ record r { inbound_rule = insert tag rules r.inbound_rule }
  | some old ↦
      if detect_rules_equal old rules
      then r
      else record r { inbound_rule = insert tag rules r.inbound_rule }
]

unfoldable pub get_detect_result : Bytes → RuleManager → List DetectResult × RuleManager
get_detect_result tag r = elim (lookup tag r.inbound_detect_result) [
  | none ↦ ([], r)
  | some s ↦
      let (results, emptied) = drain_all s in
      (results, record r { inbound_detect_result = insert tag emptied r.inbound_detect_result })
]

unfoldable pub delete_rule : Bytes → RuleManager → RuleManager
delete_rule tag r = record {
  inbound_rule = delete tag r.inbound_rule;
  inbound_detect_result = delete tag r.inbound_detect_result;
}

abbrev pub set_or_new : Option DetectResultSet → DetectResultSet
set_or_new none = []
set_or_new (some s) = s

-- -1, with which `Detect` starts and which it reads as "no rule hit".
abbrev pub no_hit : ℤ
no_hit = negsuc 0

unfoldable pub record_hit : Bytes → ℤ → ℤ → RuleManager → RuleManager
record_hit tag uid rule_id r = record r {
  inbound_detect_result =
      insert tag (add uid rule_id (set_or_new (lookup tag r.inbound_detect_result)))
        r.inbound_detect_result;
}

module _ (matches : Bytes → Bytes → Bool) where
  abbrev pub hits_pattern : Option Bytes → Bytes → Bool
  hits_pattern none destination = false
  hits_pattern (some source) destination = matches source destination

  -- The loop of `Detect`: the id of the first rule that matches.
  unfoldable pub hit_rule_id : List DetectRule → Bytes → ℤ
  hit_rule_id [] destination = no_hit
  hit_rule_id (rule ∷ rules) destination =
      let rest = hit_rule_id rules destination in
      if hits_pattern rule.pattern destination then rule.id else rest

  -- A hit is recorded for the uid at the end of the email key, and refused in any case.
  unfoldable pub reject : Bytes → ℤ → Bytes → RuleManager → Bool × RuleManager
  reject tag rule_id email r = elim (atoi (last_part (split b'|' email))) [
    | none ↦ (true, r)
    | some uid ↦ (true, record_hit tag uid rule_id r)
  ]

  unfoldable pub detect : Bytes → Bytes → Bytes → RuleManager → Bool × RuleManager
  detect tag destination email r = elim (lookup tag r.inbound_rule) [
    | none ↦ (false, r)
    | some rules ↦
        let id = hit_rule_id rules destination in
        if int_beq id no_hit then (false, r) else reject tag id email r
  ]
