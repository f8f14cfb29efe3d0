-- ===== src/Panel/Illegal.antt =====
-- The body of an illegal report: `aggregateIllegalBody` of api/v2board/v2board.go.
use xray_r4u.Base.{
  ℕ, ◌+◌, Bool, List, [], ◌∷◌, ℤ, pos, pos_part, leb_ℤ, ltb_ℤ, int_beq, ltb, leb, nat_beq,
  if◌then◌else◌, length, take,
}
use xray_r4u.GoMap.{Map, lookup, insert}
use xray_r4u.Api.{DetectResult}
use xray_r4u.Rule.Manager.{DetectKey, key_eq, count_or_zero}

-- `maxIllegalReportItems`
abbrev pub max_illegal_report_items : ℕ
max_illegal_report_items = 1000

-- A count of 0 or less stands for one hit.
abbrev pub hits_of : DetectResult → ℕ
hits_of r = if leb_ℤ r.count (pos 0) then 1 else pos_part r.count

unfoldable pub aggregate : List DetectResult → Map DetectKey ℕ → Map DetectKey ℕ
aggregate [] agg = agg
aggregate (r ∷ rs) agg =
    let key : DetectKey = record { uid = r.uid; rule_id = r.rule_id } in
    aggregate rs (insert key (count_or_zero (lookup key agg) + hits_of r) agg)

pub record Item : Type 0 where
  pub uid : ℤ
  pub rule_id : ℤ
  pub count : ℕ

abbrev pub to_items : Map DetectKey ℕ → List Item
to_items [] = []
to_items ((k, n) ∷ agg) = record { uid = k.uid; rule_id = k.rule_id; count = n } ∷ to_items agg

-- The comparison of the sort: more hits first, then the smaller uid, then the smaller rule.
unfoldable pub precedes : Item → Item → Bool
precedes a b =
    if nat_beq a.count b.count
    then if int_beq a.uid b.uid then ltb_ℤ a.rule_id b.rule_id else ltb_ℤ a.uid b.uid
    else ltb b.count a.count

unfoldable pub place : Item → List Item → List Item
place a [] = a ∷ []
place a (b ∷ bs) = if precedes b a then b ∷ place a bs else a ∷ b ∷ bs

-- `sort.Slice`: no two items of the body compare equal, so any sort gives this list.
unfoldable pub sort_items : List Item → List Item
sort_items [] = []
sort_items (a ∷ as') = place a (sort_items as')

unfoldable pub aggregate_illegal_body : List DetectResult → List Item
aggregate_illegal_body list =
    let body = to_items (aggregate list []) in
    if leb (length body) max_illegal_report_items
    then body
    else take max_illegal_report_items (sort_items body)
