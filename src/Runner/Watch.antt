-- ===== src/Runner/Watch.antt =====
-- The reload loop of main/main.go: the configuration's changes, as viper reports them, and the
-- goroutine that reloads. Times are in milliseconds; `V` is what a configuration file says, `C` the
-- configuration that `Unmarshal` decodes it onto.
use xray_r4u.Base.{
  ℕ, ◌+◌, Bool, true, false, Option, none, some, List, [], ◌∷◌, leb, if◌then◌else◌, not, ◌&&◌,
}

abbrev pub debounce_duration : ℕ
debounce_duration = 3000

pub record Loop (V C : Type 0) : Type 0 where
  -- The channel, of one place, holds a signal.
  pub queued : Bool
  -- The zero time is `none`.
  pub last_reload : Option ℕ
  -- The goroutine is between `lastReload = time.Now()` and the next receive.
  pub reloading : Bool
  -- What viper has read, and the configuration that the panel was started with.
  pub current : V
  pub loaded : C

-- Not `time.Since(lastReload) < debounceDuration`.
abbrev pub is_due : ℕ → Option ℕ → Bool
is_due now none = true
is_due now (some last) = leb (last + debounce_duration) now

-- What happens, at the time that the goroutine reads off the clock.
pub data Action (V : Type 0) : Type 0 where
  change : V → Action V
  wake : ℕ → Action V
  reload : Action V

module _ {V C : Type 0} where
  -- viper has read the changed file and calls `OnConfigChange`; a full channel takes no second signal.
  unfoldable pub signal : V → Loop V C → Loop V C
  signal v w = record w { current = v; queued = true }

  abbrev pub begin_or_skip : ℕ → Loop V C → Bool → Loop V C
  begin_or_skip now w true = record w { queued = false; last_reload = some now; reloading = true }
  begin_or_skip now w false = record w { queued = false }

  -- The goroutine receives a signal, if there is one and it is not at work.
  unfoldable pub receive : ℕ → Loop V C → Loop V C
  receive now w =
      if w.queued && not w.reloading then begin_or_skip now w (is_due now w.last_reload) else w

module _ {V C : Type 0} (unmarshal : V → C → C) where
  -- `Close`, `Unmarshal` and `Start`: the file is decoded onto the configuration that is there.
  unfoldable pub finish : Loop V C → Loop V C
  finish w =
      if w.reloading
      then record w { loaded = unmarshal w.current w.loaded; reloading = false }
      else w

  unfoldable pub step : Action V → Loop V C → Loop V C
  unfolding signal receive finish
  step (change v) w = signal v w
  step (wake now) w = receive now w
  step reload w = finish w

  unfoldable pub run : List (Action V) → Loop V C → Loop V C
  unfolding step
  run [] w = w
  run (a ∷ actions) w = run actions (step a w)
