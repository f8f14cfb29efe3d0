-- ===== src/Dispatcher/Meter.antt =====
-- app/mydispatcher/stats.go and the counters that default.go puts around a user's link: the bytes of
-- a connection, which the controller later drains for its traffic report.
use xray_r4u.Base.{
  ◌+◌, ◌≡◌, refl, sym, ◌∙◌, Bool, true, List, [], ◌∷◌, ◌++◌, Bytes, bytes_beq, bytes_beq_iff,
  if◌then◌else◌, codes, length, length-append, arith,
}
use xray_r4u.Text.{is_empty}
use mathlib.Core.List.{append-nil, append_assoc}
use xray_r4u.Controller.Traffic.{Stats, up_name, take_counter, get_traffic}

unfoldable pub uplink_name : Bytes → Bytes
uplink_name email = codes "user>>>" ++ (email ++ codes ">>>traffic>>>uplink")

unfoldable pub downlink_name : Bytes → Bytes
downlink_name email = codes "user>>>" ++ (email ++ codes ">>>traffic>>>downlink")

module _ (x : Stats) where
  open x use {State, value, has_counter, add, register}

  -- The counters, and what the writer below has got.
  pub record Metered : Type 0 where
    pub stats : State
    pub written : Bytes

  unfoldable pub write_multi_buffer : Bytes → Bytes → Metered → Metered
  write_multi_buffer name mb w = record {
    stats = add name (length mb) w.stats;
    written = w.written ++ mb;
  }

  -- What has been read, whether the read failed, and the counters.
  unfoldable pub read_multi_buffer : Bytes → Bytes × Bool → State → (Bytes × Bool) × State
  read_multi_buffer name (mb, fault) s =
      ((mb, fault), if is_empty mb then s else add name (length mb) s)

  unfoldable pub write_all : Bytes → List Bytes → Metered → Metered
  unfolding write_multi_buffer
  write_all name [] w = w
  write_all name (mb ∷ mbs) w = write_all name mbs (write_multi_buffer name mb w)

  abbrev pub concat : List Bytes → Bytes
  concat [] = []
  concat (mb ∷ mbs) = mb ++ concat mbs

  write_all-written :
      (name : Bytes) (mbs : List Bytes) (w : Metered)
      → (write_all name mbs w).written ≡ w.written ++ concat mbs
  unfolding write_all write_multi_buffer
  write_all-written name [] w = sym (append-nil w.written)
  write_all-written name (mb ∷ mbs) w =
      write_all-written name mbs (write_multi_buffer name mb w)
      ∙ append_assoc w.written mb (concat mbs)

  write_all-has_counter :
      (name n : Bytes) (mbs : List Bytes) (w : Metered)
      → has_counter n (write_all name mbs w).stats ≡ has_counter n w.stats
  unfolding write_all write_multi_buffer
  write_all-has_counter name n [] w = refl
  write_all-has_counter name n (mb ∷ mbs) w =
      write_all-has_counter name n mbs (write_multi_buffer name mb w)
      ∙ x.has_counter-add name n (length mb) w.stats

  write_all-value :
      (name n : Bytes) (mbs : List Bytes) (w : Metered)
      → has_counter name w.stats ≡ true
      → value n (write_all name mbs w).stats
        ≡ (if bytes_beq name n then value n w.stats + length (concat mbs) else value n w.stats)
  unfolding write_all write_multi_buffer
  write_all-value name n [] w h = ground arith
  write_all-value name n (mb ∷ mbs) w h = ground (
    arith,
    write_all-value name n mbs (write_multi_buffer name mb w)
        (x.has_counter-add name name (length mb) w.stats ∙ h),
    x.value-add name n (length mb) w.stats h,
    length-append mb (concat mbs),
  )

  -- What a connection of a user writes through the uplink counter is delivered whole and in order,
  -- and the controller's next drain of the user finds on the uplink what the counter had and just
  -- those bytes, where the counter is registered.
  pub write_all-get_traffic :
      (email : Bytes) (mbs : List Bytes) (w : Metered)
      → has_counter (uplink_name email) w.stats ≡ true
      → let w' = write_all (uplink_name email) mbs w in
        (w'.written ≡ w.written ++ concat mbs)
        × ((get_traffic x email w'.stats).0.0 ≡ value (up_name email) w.stats + length (concat mbs))
  unfolding uplink_name get_traffic take_counter
  write_all-get_traffic email mbs w h =
      let name = uplink_name email in
      let w' = write_all name mbs w in
      let there = write_all-has_counter name name mbs w ∙ h in
      (
        write_all-written name mbs w,
        ground (
          arith,
          there,
          x.drained name w'.stats there,
          write_all-value name name mbs w h,
          bytes_beq_iff name name,
        ),
      )
