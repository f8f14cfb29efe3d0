-- ===== src/Panel/Report.antt =====
-- What the body of an illegal report holds: `aggregateIllegalBody` of api/v2board/v2board.go.
use xray_r4u.Base.{
  ℕ, zero, suc, ◌+◌, ◌≤◌, ◌≡◌, ◌⊎◌, inl, inr, refl, ap, ◌∙◌, true, false, List, [], ◌∷◌, ℤ, int_beq,
  if◌then◌else◌, ◌&&◌, arith, length, take, length-take, Bool-cases, All, leb, leb→le,
}
use xray_r4u.GoMap.{Map, IsMap, lookup, insert, lookup-insert, insert-IsMap, lookup-nil}
use xray_r4u.Api.{DetectResult}
use xray_r4u.Rule.Manager.{DetectKey, key_beq_iff, key_eq, count_or_zero}
use xray_r4u.Panel.Illegal.{
  max_illegal_report_items, hits_of, aggregate, Item, to_items, precedes, place, sort_items,
  aggregate_illegal_body,
}

-- The hits of a user on a rule in a list of detections.
abbrev pub detected : ℤ → ℤ → List DetectResult → ℕ
detected u i [] = 0
detected u i (r ∷ rs) =
    detected u i rs + (if int_beq r.uid u && int_beq r.rule_id i then hits_of r else 0)

-- The hits of a user on a rule in a body.
abbrev pub item_hits : ℤ → ℤ → List Item → ℕ
item_hits u i [] = 0
item_hits u i (a ∷ items) =
    item_hits u i items + (if int_beq a.uid u && int_beq a.rule_id i then a.count else 0)

aggregate-hits :
    (u i : ℤ) (list : List DetectResult) (agg : Map DetectKey ℕ)
    → count_or_zero (lookup (record { uid = u; rule_id = i }) (aggregate list agg))
      ≡ count_or_zero (lookup (record { uid = u; rule_id = i }) agg) + detected u i list
unfolding aggregate
aggregate-hits u i [] agg = omega arith
aggregate-hits u i (r ∷ rs) agg =
    let key : DetectKey = record { uid = r.uid; rule_id = r.rule_id } in
    let at : DetectKey = record { uid = u; rule_id = i } in
    let n = count_or_zero (lookup key agg) + hits_of r in
    ground (
      arith,
      key_beq_iff key at,
      aggregate-hits u i rs (insert key n agg),
      lookup-insert key at n agg,
    )

aggregate-IsMap :
    (list : List DetectResult) (agg : Map DetectKey ℕ) → IsMap agg → IsMap (aggregate list agg)
unfolding aggregate
aggregate-IsMap [] agg m = m
aggregate-IsMap (r ∷ rs) agg m = aggregate-IsMap rs _ (insert-IsMap _ _ agg m)

item_hits-to_items :
    (u i : ℤ) (agg : Map DetectKey ℕ)
    → IsMap agg
    → item_hits u i (to_items agg) ≡ count_or_zero (lookup (record { uid = u; rule_id = i }) agg)
unfolding lookup
item_hits-to_items u i [] m = refl
item_hits-to_items u i ((k, n) ∷ agg) m =
    ground (arith, item_hits-to_items u i agg m.1, key_beq_iff k (record { uid = u; rule_id = i }))

-- The whole aggregate, before the cap.
abbrev pub whole_body : List DetectResult → List Item
whole_body list = to_items (aggregate list [])

-- Before the cap, each user and rule has the hits of all its detections.
whole_body-hits :
    (u i : ℤ) (list : List DetectResult) → item_hits u i (whole_body list) ≡ detected u i list
whole_body-hits u i list =
    item_hits-to_items u i (aggregate list []) (aggregate-IsMap list [] tt)
    ∙ aggregate-hits u i list []
    ∙ ap (λ n. count_or_zero n + detected u i list) (lookup-nil ℕ (record { uid = u; rule_id = i }))
    ∙ omega arith

abbrev pub In : Item → List Item → Type 0
In a [] = ⊥
In a (b ∷ bs) = (a ≡ b) ⊎ In a bs

-- No later item has more hits.
abbrev IsDescending : List Item → Type 0
IsDescending [] = Unit
IsDescending (a ∷ items) = All (λ b. b.count ≤ a.count) items × IsDescending items

All-mono :
    (m n : ℕ) (items : List Item)
    → m ≤ n
    → All (λ b. b.count ≤ m) items
    → All (λ b. b.count ≤ n) items
All-mono m n [] h p = tt
All-mono m n (a ∷ items) h p = (omega arith, All-mono m n items h p.1)

place-All :
    (n : ℕ) (a : Item) (items : List Item)
    → a.count ≤ n
    → All (λ b. b.count ≤ n) items
    → All (λ b. b.count ≤ n) (place a items)
unfolding place
place-All n a [] h p = (h, tt)
place-All n a (b ∷ items) h p = elim (Bool-cases (precedes b a)) [
  | inl yes' ↦ rw yes' (p.0, place-All n a items h p.1)
  | inr no' ↦ rw no' (h, p)
]

precedes-ge : (a b : Item) → precedes b a ≡ true → a.count ≤ b.count
unfolding precedes
precedes-ge a b h = ground arith

not_precedes-le : (a b : Item) → precedes b a ≡ false → b.count ≤ a.count
unfolding precedes
not_precedes-le a b h = ground arith

place-IsDescending :
    (a : Item) (items : List Item) → IsDescending items → IsDescending (place a items)
unfolding place
place-IsDescending a [] d = (tt, tt)
place-IsDescending a (b ∷ items) d = elim (Bool-cases (precedes b a)) [
  | inl before ↦
      rw before
        (place-All b.count a items (precedes-ge a b before) d.0, place-IsDescending a items d.1)
  | inr after ↦
      let le = not_precedes-le a b after in
      rw after ((le, All-mono b.count a.count items le d.0), d)
]

sort_items-IsDescending : (items : List Item) → IsDescending (sort_items items)
unfolding sort_items
sort_items-IsDescending [] = tt
sort_items-IsDescending (a ∷ items) =
    place-IsDescending a (sort_items items) (sort_items-IsDescending items)

In-place : (a b : Item) (items : List Item) → (a ≡ b) ⊎ In a items → In a (place b items)
unfolding place
In-place a b [] h = h
In-place a b (c ∷ items) (inl e) = elim (Bool-cases (precedes c b)) [
  | inl before ↦ rw before (inr (In-place a b items (inl e)))
  | inr after ↦ rw after (inl e)
]
In-place a b (c ∷ items) (inr (inl e)) = elim (Bool-cases (precedes c b)) [
  | inl before ↦ rw before (inl e)
  | inr after ↦ rw after (inr (inl e))
]
In-place a b (c ∷ items) (inr (inr m)) = elim (Bool-cases (precedes c b)) [
  | inl before ↦ rw before (inr (In-place a b items (inr m)))
  | inr after ↦ rw after (inr (inr m))
]

In-sort_items : (a : Item) (items : List Item) → In a items → In a (sort_items items)
unfolding sort_items
In-sort_items a (b ∷ items) (inl e) = In-place a b (sort_items items) (inl e)
In-sort_items a (b ∷ items) (inr m) =
    In-place a b (sort_items items) (inr (In-sort_items a items m))
In-sort_items a [] h = absurd h

All-le :
    (a b : Item) (items : List Item)
    → All (λ c. c.count ≤ b.count) items
    → In a items
    → a.count ≤ b.count
All-le a b (c ∷ items) h (inl e) = rw e h.0
All-le a b (c ∷ items) h (inr m) = All-le a b items h.1 m
All-le a b [] h m = absurd m

-- An item of a descending list is among the first `n`, or none of these has fewer hits.
In-take :
    (n : ℕ) (a : Item) (items : List Item)
    → IsDescending items
    → In a items
    → In a (take n items) ⊎ All (λ b. a.count ≤ b.count) (take n items)
In-take zero a items d m = inr tt
In-take (suc n) a [] d m = absurd m
In-take (suc n) a (b ∷ items) d (inl e) = inl (inl e)
In-take (suc n) a (b ∷ items) d (inr m) = elim (In-take n a items d.1 m) [
  | inl here ↦ inl (inr here)
  | inr below ↦ inr (All-le a b items d.0 m, below)
]

body_fits :
    (list : List DetectResult)
    → leb (length (whole_body list)) max_illegal_report_items ≡ true
    → aggregate_illegal_body list ≡ whole_body list
unfolding aggregate_illegal_body
body_fits list h = rw h

body_over :
    (list : List DetectResult)
    → leb (length (whole_body list)) max_illegal_report_items ≡ false
    → aggregate_illegal_body list ≡ take max_illegal_report_items (sort_items (whole_body list))
unfolding aggregate_illegal_body
body_over list h = rw h

aggregate_illegal_body_lem :
    (list : List DetectResult)
    → (length (aggregate_illegal_body list) ≤ max_illegal_report_items)
      × (length (whole_body list) ≤ max_illegal_report_items
          → (u i : ℤ) → item_hits u i (aggregate_illegal_body list) ≡ detected u i list)
      × ((a : Item)
          → In a (whole_body list)
          → In a (aggregate_illegal_body list)
            ⊎ All (λ b. a.count ≤ b.count) (aggregate_illegal_body list))
aggregate_illegal_body_lem list =
    elim (Bool-cases (leb (length (whole_body list)) max_illegal_report_items)) [
      | inl fits ↦
          rw (body_fits list fits)
            (leb→le _ _ fits, (λ _ u i. whole_body-hits u i list), (λ a m. inl m))
      | inr over ↦ rw (body_over list over) (
        omega (arith, length-take max_illegal_report_items (sort_items (whole_body list))),
        (λ h. absurd (ground arith)),
        (λ a m.
            In-take max_illegal_report_items a (sort_items (whole_body list))
              (sort_items-IsDescending (whole_body list)) (In-sort_items a (whole_body list) m)),
      )
    ]

-- While all users and rules with hits fit into a body, each has there exactly the hits detected.
pub aggregate_illegal_body_exact :
    (list : List DetectResult) (u i : ℤ)
    → length (whole_body list) ≤ max_illegal_report_items
    → item_hits u i (aggregate_illegal_body list) ≡ detected u i list
aggregate_illegal_body_exact list u i fits = (aggregate_illegal_body_lem list).1 fits u i

-- A body has at most a thousand items, and an item that is left out has no more hits than any item
-- that is kept.
pub aggregate_illegal_body_top :
    (list : List DetectResult) (a : Item)
    → In a (whole_body list)
    → (length (aggregate_illegal_body list) ≤ max_illegal_report_items)
      × (In a (aggregate_illegal_body list)
          ⊎ All (λ b. a.count ≤ b.count) (aggregate_illegal_body list))
aggregate_illegal_body_top list a h =
    ((aggregate_illegal_body_lem list).0, (aggregate_illegal_body_lem list).2 a h)
