-- ===== src/Runner/Stale.antt =====
-- What the debouncing of main/main.go loses, and what it keeps.
use xray_r4u.Base.{
  ℕ, ◌+◌, ◌<◌, ◌≡◌, refl, ap, ◌∙◌, Bool, true, false, some, List, [], ◌∷◌, leb, not, ◌&&◌, ◌⊎◌, inl,
  inr, arith, Bool-cases,
}
use xray_r4u.Runner.Watch.{
  Loop, debounce_duration, is_due, signal, receive, finish, Action, change, wake, reload, step, run,
}

module _ {V C : Type 0} (unmarshal : V → C → C) where
  abbrev skips_now : Action V → Loop V C → Bool
  skips_now (wake now) w = w.queued && (not w.reloading && not (is_due now w.last_reload))
  skips_now _ w = false

  -- No signal was thrown away in a run.
  abbrev pub none_skipped : List (Action V) → Loop V C → Bool
  none_skipped [] w = true
  none_skipped (a ∷ actions) w = not (skips_now a w) && none_skipped actions (step unmarshal a w)

  -- The last decoding was that of what the file says now, or a signal or a reload is under way.
  abbrev pub IsCurrent : Loop V C → Type 0
  IsCurrent w =
      ((c : C) × (w.loaded ≡ unmarshal w.current c)) ⊎ ((w.queued ≡ true) ⊎ (w.reloading ≡ true))

  step-IsCurrent :
      (a : Action V) (w : Loop V C)
      → skips_now a w ≡ false
      → IsCurrent w
      → IsCurrent (step unmarshal a w)
  unfolding step signal receive finish
  step-IsCurrent (change v) w kept h = inr (inl refl)
  step-IsCurrent (wake now) w kept h = ground arith
  step-IsCurrent reload w kept h = elim (Bool-cases w.reloading) [
    | inl busy ↦ rw busy (inl (w.loaded, refl))
    | inr at_rest ↦ rw at_rest (rw at_rest at h)
  ]

  -- As long as no signal is thrown away, every change reaches the panel: whenever no signal and no
  -- reload is under way, the panel runs on what Unmarshal made of the file as it is now and of some
  -- configuration before, if that was so at the start.
  pub run-IsCurrent :
      (actions : List (Action V)) (w : Loop V C)
      → none_skipped actions w ≡ true
      → IsCurrent w
      → IsCurrent (run unmarshal actions w)
  unfolding run
  run-IsCurrent [] w kept h = h
  run-IsCurrent (a ∷ actions) w kept h =
      run-IsCurrent actions (step unmarshal a w) (ground arith)
        (step-IsCurrent a w (ground arith) h)

  abbrev is_change : Action V → Bool
  is_change (change v) = true
  is_change _ = false

  abbrev pub no_change : List (Action V) → Bool
  no_change [] = true
  no_change (a ∷ actions) = not (is_change a) && no_change actions

  idle-step :
      (a : Action V) (w : Loop V C)
      → is_change a ≡ false
      → w.queued ≡ false
      → w.reloading ≡ false
      → step unmarshal a w ≡ w
  unfolding step receive finish
  idle-step (change v) w quiet q r = absurd (ground arith)
  idle-step (wake now) w quiet q r = ground arith
  idle-step reload w quiet q r = ground arith

  idle-run :
      (actions : List (Action V)) (w : Loop V C)
      → no_change actions ≡ true
      → w.queued ≡ false
      → w.reloading ≡ false
      → run unmarshal actions w ≡ w
  unfolding run
  idle-run [] w quiet q r = refl
  idle-run (a ∷ actions) w quiet q r =
      ap (run unmarshal actions) (idle-step a w (ground arith) q r)
      ∙ idle-run actions w (ground arith) q r

  -- Of two changes the first of which is reloaded at once, the second is never loaded if its signal is
  -- received within three seconds of the first: whatever follows, but a further change, the panel
  -- stays with what Unmarshal made of the first.
  pub second_change_lost :
      (w : Loop V C) (first second : V) (at_first at_second : ℕ) (later : List (Action V))
      → w.reloading ≡ false
      → is_due at_first w.last_reload ≡ true
      → at_second < at_first + debounce_duration
      → no_change later ≡ true
      → let actions =
          change first ∷ wake at_first ∷ reload ∷ change second ∷ wake at_second ∷ later in
        ((run unmarshal actions w).loaded ≡ unmarshal first w.loaded)
        × ((run unmarshal actions w).current ≡ second)
  unfolding run step signal receive finish
  second_change_lost w first second at_first at_second later r due soon quiet =
      let skipped : leb (at_first + debounce_duration) at_second ≡ false = ground arith in
      let stale : Loop V C = record {
        queued = false;
        last_reload = some at_first;
        reloading = false;
        current = second;
        loaded = unmarshal first w.loaded;
      } in
      let stays = idle-run later stale quiet refl refl in
      let reaches : receive at_second
            (signal second (finish unmarshal (receive at_first (signal first w))))
          ≡ stale =
        ground arith in
      let ends : run unmarshal later (
            receive at_second
              (signal second (finish unmarshal (receive at_first (signal first w)))))
          ≡ stale =
        ap (run unmarshal later) reaches ∙ stays in
      (ap (λ (l : Loop V C). l.loaded) ends, ap (λ (l : Loop V C). l.current) ends)
