-- ===== src/Panel/Kick.antt =====
-- The policy answer to an illegal report: `parseUIDList`, the kick list of `ReportIllegal`, and
-- `TakeKickUIDs`.
use xray_r4u.Base.{
  ◌≡◌, inl, inr, refl, Bool, true, false, Option, none, some, List, [], ◌∷◌, ◌++◌, Bytes, ℤ, pos,
  int_beq, int_beq_iff, ltb_ℤ, leb_ℤ, if◌then◌else◌, ◌||◌, ◌&&◌, codes, arith, Bool-cases,
}
use xray_r4u.Panel.Json.{Value, SimpleJson, or_empty}
use xray_r4u.Panel.Client.{Client, Response, parse_response}

-- `interfaceToInt64`, on the values of a decoded tree; the text of a number is read by `parse`.
unfoldable pub interface_to_int64 : (Bytes → ℤ) → Value → ℤ
interface_to_int64 parse (Value.number (some i) f) = i
interface_to_int64 parse (Value.number none f) = f
interface_to_int64 parse (Value.text t) = parse t
interface_to_int64 parse _ = pos 0

abbrev pub has : ℤ → List ℤ → Bool
has u [] = false
has u (v ∷ vs) = int_beq v u || has u vs

-- The loop of `parseUIDList`: positive ids, each at its first place. `seen` holds those taken.
unfoldable pub parse_uids : (Bytes → ℤ) → List ℤ → List Value → List ℤ
parse_uids parse seen [] = []
parse_uids parse seen (el ∷ arr) =
    let uid = interface_to_int64 parse el in
    let skip = parse_uids parse seen arr in
    let taken = uid ∷ parse_uids parse (uid ∷ seen) arr in
    if leb_ℤ uid (pos 0) then skip else if has uid seen then skip else taken

-- The second loop, over both lists together.
unfoldable pub dedup : List ℤ → List ℤ → List ℤ
dedup seen [] = []
dedup seen (id ∷ uids) =
    let skip = dedup seen uids in
    let taken = id ∷ dedup (id ∷ seen) uids in if has id seen then skip else taken

-- The list, and the client without it.
unfoldable pub take_kick_uids : {J : Type 0} → Client J → List ℤ × Client J
take_kick_uids c = (c.last_kick_uids, record c { last_kick_uids = [] })

module _ (sj : SimpleJson) (parse : Bytes → ℤ) where
  open sj use {Json, check_get, get_array, value}

  abbrev values : List Json → List Value
  values [] = []
  values (j ∷ js) = value j ∷ values js

  unfoldable pub parse_uid_list : Json → List ℤ
  parse_uid_list j = parse_uids parse [] (values (or_empty (get_array j)))

  abbrev uids_under : Option Json → List ℤ
  uids_under none = []
  uids_under (some j) = parse_uid_list j

  -- The ids that a successful answer names; a list of one is left as it is.
  unfoldable pub policy_uids : Json → List ℤ
  policy_uids response =
      let uids =
        uids_under (check_get response (codes "kick_uids"))
        ++ uids_under (check_get response (codes "disable_uids")) in
      elim uids [ [] ↦ [] | u ∷ rest ↦ elim rest [ [] ↦ u ∷ [] | v ∷ vs ↦ dedup [] (u ∷ v ∷ vs) ] ]

  -- `ReportIllegal`, from the panel's response on: a failure clears the list, a success sets it.
  unfoldable pub settle_report : Response → Client Json → Bool × Client Json
  settle_report res c = elim (parse_response sj res) [
    | none ↦ (false, record c { last_kick_uids = [] })
    | some response ↦ (true, record c { last_kick_uids = policy_uids response })
  ]

-- No id stands twice, nor among those seen before.
abbrev pub IsFresh : List ℤ → List ℤ → Type 0
IsFresh seen [] = Unit
IsFresh seen (u ∷ us) = (has u seen ≡ false) × IsFresh (u ∷ seen) us

dedup-IsFresh : (seen uids : List ℤ) → IsFresh seen (dedup seen uids)
unfolding dedup
dedup-IsFresh seen [] = tt
dedup-IsFresh seen (id ∷ uids) = elim (Bool-cases (has id seen)) [
  | inl old ↦ rw old (dedup-IsFresh seen uids)
  | inr new ↦ rw new (new, dedup-IsFresh (id ∷ seen) uids)
]

has-dedup :
    (u : ℤ) (seen uids : List ℤ)
    → (has u seen || has u (dedup seen uids)) ≡ (has u seen || has u uids)
unfolding dedup
has-dedup u seen [] = refl
has-dedup u seen (id ∷ uids) =
    ground (arith, int_beq_iff id u, has-dedup u seen uids, has-dedup u (id ∷ seen) uids)

dedup_lem :
    (uids : List ℤ) (u : ℤ) → IsFresh [] (dedup [] uids) × (has u (dedup [] uids) ≡ has u uids)
dedup_lem uids u = (dedup-IsFresh [] uids, has-dedup u [] uids)

-- Some value of an array reads as this id.
abbrev pub names : (Bytes → ℤ) → ℤ → List Value → Bool
names parse u [] = false
names parse u (el ∷ arr) = int_beq (interface_to_int64 parse el) u || names parse u arr

has-parse_uids :
    (parse : Bytes → ℤ) (u : ℤ) (seen : List ℤ) (arr : List Value)
    → (has u seen || has u (parse_uids parse seen arr))
      ≡ (has u seen || ltb_ℤ (pos 0) u && names parse u arr)
unfolding parse_uids
has-parse_uids parse u seen [] = ground arith
has-parse_uids parse u seen (el ∷ arr) = ground (
  arith,
  int_beq_iff (interface_to_int64 parse el) u,
  has-parse_uids parse u seen arr,
  has-parse_uids parse u (interface_to_int64 parse el ∷ seen) arr,
)

has-append : (u : ℤ) (us vs : List ℤ) → has u (us ++ vs) ≡ (has u us || has u vs)
has-append u [] vs = refl
has-append u (v ∷ us) vs = ground (arith, has-append u us vs)

module _ (sj : SimpleJson) (parse : Bytes → ℤ) where
  open sj use {Json, check_get, get_array, value}

  -- A field of the answer names this user: its array has a value that reads as the id.
  abbrev pub field_names : ℤ → Option Json → Bool
  field_names u none = false
  field_names u (some j) = names parse u (values sj parse (or_empty (get_array j)))

  has-uids_under :
      (u : ℤ) (o : Option Json)
      → has u (uids_under sj parse o) ≡ (ltb_ℤ (pos 0) u && field_names u o)
  unfolding parse_uid_list
  has-uids_under u none = ground arith
  has-uids_under u (some j) = has-parse_uids parse u [] (values sj parse (or_empty (get_array j)))

  policy_uids-dedup :
      (r : Json)
      → policy_uids sj parse r
        ≡ dedup [] (
            uids_under sj parse (check_get r (codes "kick_uids"))
            ++ uids_under sj parse (check_get r (codes "disable_uids")))
  unfolding policy_uids dedup
  policy_uids-dedup r = ground arith

  -- The kick list of a successful report has each user once, and exactly the positive ids that the
  -- answer names under kick_uids or disable_uids.
  pub policy_uids_lem :
      (r : Json)
      → IsFresh [] (policy_uids sj parse r)
        × ((u : ℤ)
            → has u (policy_uids sj parse r) ≡ (
                ltb_ℤ (pos 0) u
                && (field_names u (check_get r (codes "kick_uids"))
                    || field_names u (check_get r (codes "disable_uids")))))
  policy_uids_lem r =
      let kick = check_get r (codes "kick_uids") in
      let disable = check_get r (codes "disable_uids") in
      let uids = uids_under sj parse kick ++ uids_under sj parse disable in
      (
        rw (policy_uids-dedup r) (dedup-IsFresh [] uids),
        λ u. ground (
          arith,
          policy_uids-dedup r,
          has-dedup u [] uids,
          has-append u (uids_under sj parse kick) (uids_under sj parse disable),
          has-uids_under u kick,
          has-uids_under u disable,
        ),
      )

  -- What a report's answer orders: whether it counts as sent, and whom to kick.
  abbrev pub ordered : Option Json → Bool × List ℤ
  ordered none = (false, [])
  ordered (some r) = (true, policy_uids sj parse r)

  -- A policy is carried out once, and only after the report that brought it: what is taken after a
  -- report is what its own answer orders, nothing if it failed, and a second take gets nothing.
  pub take_kick_uids-settle_report :
      (res : Response) (c : Client Json)
      → let (sent, c') = settle_report sj parse res c in
        let (uids, c'') = take_kick_uids c' in
        ((sent, uids) ≡ ordered (parse_response sj res)) × (take_kick_uids c'' ≡ ([], c''))
  unfolding settle_report take_kick_uids
  take_kick_uids-settle_report res c = ground arith
