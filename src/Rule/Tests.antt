-- ===== src/Rule/Tests.antt =====
-- Runs of the rule manager, with a matcher that compares texts.
use xray_r4u.Base.{
  ◌+◌, ◌≡◌, ◌≢◌, refl, false, Bool, some, [], ◌∷◌, ◌++◌, Bytes, codes, bytes_beq, bytes_eq, ℤ, pos,
  negsuc, arith,
}
use xray_r4u.GoMap.{lookup}
use xray_r4u.Api.{DetectRule}
use xray_r4u.Rule.Manager.{RuleManager, detect}
use xray_r4u.Rule.Hits.{hits_at, IsCounted}
use xray_r4u.Rule.Update.{AllProper, detect_local_rule}
use xray_r4u.Rule.Ledger.{Call, run, total_refusals, total_reports, run-hits}

abbrev same : Bytes → Bytes → Bool
same = bytes_beq

abbrev ads : Bytes
ads = codes "ads.test"

abbrev tag_a : Bytes
tag_a = codes "a"

abbrev rule_of : ℤ → DetectRule
rule_of i = record { id = i; pattern = some ads }

abbrev panel_only : RuleManager
panel_only = record {
  inbound_rule = (tag_a, rule_of (pos 3) ∷ []) ∷ [];
  inbound_detect_result = [];
}

abbrev local_first : RuleManager
local_first = record {
  inbound_rule = (tag_a, rule_of (negsuc 0) ∷ rule_of (pos 3) ∷ []) ∷ [];
  inbound_detect_result = [];
}

panel_only-IsCounted : IsCounted panel_only
unfolding lookup
panel_only-IsCounted tag = tt

panel_only-proper : ads ≢ []
panel_only-proper e = absurd (ground arith)

panel_only-AllProper : AllProper (lookup tag_a panel_only.inbound_rule)
unfolding lookup
panel_only-AllProper = (panel_only-proper, tt)

local_first_runs :
    lookup tag_a local_first.inbound_rule ≡ some ((rule_of (negsuc 0) ∷ []) ++ rule_of (pos 3) ∷ [])
unfolding lookup
local_first_runs = refl

run-hits_example :
    total_reports same tag_a
        (pos 7)
        (pos 3)
        (Call.visit tag_a ads (codes "seven") (pos 7) ∷ Call.drain tag_a ∷ [])
        panel_only
      + hits_at tag_a (pos 7) (pos 3) (
          run same
            (Call.visit tag_a ads (codes "seven") (pos 7) ∷ Call.drain tag_a ∷ [])
            panel_only)
    ≡ total_refusals same tag_a
        (pos 7)
        (pos 3)
        (Call.visit tag_a ads (codes "seven") (pos 7) ∷ Call.drain tag_a ∷ [])
        panel_only
      + hits_at tag_a (pos 7) (pos 3) panel_only
run-hits_example =
    run-hits same tag_a (pos 7) (pos 3)
      (Call.visit tag_a ads (codes "seven") (pos 7) ∷ Call.drain tag_a ∷ []) panel_only
      (omega arith, (tt, tt)) panel_only-IsCounted

detect_local_rule_example :
    detect same tag_a ads (codes "a|seven|7") local_first ≡ (false, local_first)
detect_local_rule_example =
    detect_local_rule same local_first tag_a ads (codes "a|seven|7") (rule_of (negsuc 0) ∷ [])
      (rule_of (pos 3) ∷ []) local_first_runs (refl, tt) refl
