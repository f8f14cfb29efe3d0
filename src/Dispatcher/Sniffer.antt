-- ===== src/Dispatcher/Sniffer.antt =====
-- `sniffer` of app/mydispatcher/default.go: the metadata sniffers, then the content sniffers on at
-- most two looks at the connection's first bytes.
use xray_r4u.Base.{
  ℕ, zero, suc, ◌≡◌, ◌≤◌, refl, Bool, true, false, Option, none, some, List, Bytes, if◌then◌else◌,
  ◌&&◌, not, leb, arith, inl, inr, Bool-cases,
}
use xray_r4u.Text.{is_empty}
use xray_r4u.Dispatcher.Sniff.{
  SniffResult, Answer, found, no_clue, unknown_content, timed_out, fault, ProtocolSniffer, sniff,
  sniff_metadata,
}

abbrev pub is_no_clue : Answer → Bool
is_no_clue no_clue = true
is_no_clue _ = false

module _ (R : Type 0) (cache_look : R → Bytes × R) (cancelled : ℕ → Bool)
    (is_full : Bytes → Bool) where
  -- The loop of `sniffer`, from a number of attempts made. `none` is fuel that ran out.
  unfoldable pub sniff_loop : ℕ → ℕ → List ProtocolSniffer → R → Option (Answer × R)
  unfolding sniff
  sniff_loop zero attempts all r = none
  sniff_loop (suc fuel) attempts all r =
      let (payload, r') = cache_look r in
      let (answer, all') = sniff payload all in
      let again = sniff_loop fuel (suc attempts) all r' in
      let again' = sniff_loop fuel (suc attempts) all' r' in
      if cancelled attempts
      then some (fault, r)
      else if leb 2 attempts
      then some (timed_out, r)
      else if not (is_empty payload) && not (is_no_clue answer)
      then some (answer, r')
      else if is_full payload
      then some (unknown_content, r')
      else if is_empty payload
      then again
      else again'

  -- Answers of both kinds make one.
  abbrev pub join_answers : Answer → Answer → Answer
  join_answers (found meta) (found content) = found (SniffResult.composite meta content)
  join_answers (found meta) _ = found meta
  join_answers _ content = content

  -- Three rounds: two looks, and the one that gives up.
  abbrev pub rounds : ℕ
  rounds = 3

  unfoldable pub sniffer : Bool → List ProtocolSniffer → R → Option (Answer × R)
  unfolding sniff_loop sniff_metadata
  sniffer metadata_only all r =
      let (meta, all') = sniff_metadata all in
      if metadata_only then some (meta, r) else elim (sniff_loop rounds 0 all' r) [
        | none ↦ none
        | some (content, r') ↦ some (join_answers meta content, r')
      ]

  -- The reader after a number of looks.
  unfoldable pub after_looks : ℕ → R → R
  after_looks zero r = r
  after_looks (suc n) r = after_looks n (cache_look r).1

  -- The loop ends with this fuel, after this many looks at most.
  abbrev pub EndsWithin : ℕ → ℕ → ℕ → List ProtocolSniffer → R → Type 0
  EndsWithin looks fuel attempts all r =
      (answer : Answer) × ((n : ℕ) × ((n ≤ looks)
          × (sniff_loop fuel attempts all r ≡ some (answer, after_looks n r))))

  one_round :
      (looks fuel attempts : ℕ) (all : List ProtocolSniffer) (r : R)
      → ((all' : List ProtocolSniffer) → EndsWithin looks fuel (suc attempts) all' (cache_look r).1)
      → EndsWithin (suc looks) (suc fuel) attempts all r
  unfolding sniff_loop after_looks
  one_round looks fuel attempts all r ends =
      let (payload, r') = cache_look r in
      let (answer, all') = sniff payload all in
      let same = ends all in
      let other = ends all' in
      elim (Bool-cases (cancelled attempts)) [
        | inl c ↦ (fault, (0, (omega arith, rw c refl)))
        | inr c ↦ elim (Bool-cases (leb 2 attempts)) [
          | inl late ↦ (timed_out, (0, (omega arith, rw (c, late) refl)))
          | inr early ↦ elim (Bool-cases (not (is_empty payload) && not (is_no_clue answer))) [
            | inl clear ↦ (answer, (1, (omega arith, rw (c, early, clear) refl)))
            | inr unclear ↦ elim (Bool-cases (is_full payload)) [
              | inl full ↦ (unknown_content, (1, (omega arith, rw (c, early, unclear, full) refl)))
              | inr room ↦ elim (Bool-cases (is_empty payload)) [
                | inl blank ↦ (
                  same.0,
                  (
                    suc same.1.0,
                    (omega (arith, same.1.1.0), rw (c, early, unclear, room, blank) same.1.1.1),
                  ),
                )
                | inr seen ↦ (
                  other.0,
                  (
                    suc other.1.0,
                    (omega (arith, other.1.1.0), rw (c, early, unclear, room, seen) other.1.1.1),
                  ),
                )
              ]
            ]
          ]
        ]
      ]

  last_round : (fuel : ℕ) (all : List ProtocolSniffer) (r : R) → EndsWithin 0 (suc fuel) 2 all r
  unfolding sniff_loop after_looks
  last_round fuel all r = elim (Bool-cases (cancelled 2)) [
    | inl c ↦ (fault, (0, (omega arith, rw c refl)))
    | inr c ↦ (timed_out, (0, (omega arith, rw c refl)))
  ]

  -- Whatever the connection brings, the loop of `sniffer` ends in its third round at the latest and
  -- after at most two looks at the connection: with fuel for three rounds or more it returns.
  pub sniff_loop-EndsWithin :
      (n : ℕ) (all : List ProtocolSniffer) (r : R) → EndsWithin 2 (suc (suc (suc n))) 0 all r
  sniff_loop-EndsWithin n all r = one_round 1 (suc (suc n)) 0 all r (λ all'.
      one_round 0 (suc n) 1 all' (cache_look r).1
        (λ all''. last_round n all'' (cache_look (cache_look r).1).1))
