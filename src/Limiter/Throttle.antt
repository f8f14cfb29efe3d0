-- ===== src/Limiter/Throttle.antt =====
-- common/limiter/rate.go: the reader and the writer that wait for a rate bucket, and the ends of a
-- link as app/mydispatcher/default.go wraps them. What a wait does is left to juju/ratelimit: a list
-- holds the numbers of bytes that were waited for. `common.Close` calls `Close` where an object has it,
-- `common.Interrupt` calls `Interrupt`, else `Close`, where it has one.
use xray_r4u.Base.{
  ℕ, ◌+◌, ◌≡◌, refl, sym, ◌∙◌, Bool, true, false, List, [], ◌∷◌, ◌++◌, Bytes, if◌then◌else◌, length,
  length-append, arith,
}
use mathlib.Core.List.{append-nil, append_assoc}
use xray_r4u.Text.{is_empty}

-- The waits so far, and the bytes that the writer below has got.
pub record Limited : Type 0 where
  pub waits : List ℕ
  pub written : Bytes

unfoldable pub write_limited : Bytes → Limited → Limited
write_limited mb w = record { waits = w.waits ++ length mb ∷ []; written = w.written ++ mb }

-- What a read gave, with its error, and the waits after it.
unfoldable pub read_limited : Bytes × Bool → List ℕ → (Bytes × Bool) × List ℕ
read_limited (mb, fault) waits =
    ((mb, fault), if is_empty mb then waits else waits ++ length mb ∷ [])

unfoldable pub write_all_limited : List Bytes → Limited → Limited
unfolding write_limited
write_all_limited [] w = w
write_all_limited (mb ∷ mbs) w = write_all_limited mbs (write_limited mb w)

-- The wrappers of a link's end, the outermost first.
pub data WriterLayer : Type 0 where
  tracked limited counted : WriterLayer

pub data ReaderLayer : Type 0 where
  limited counted cached : ReaderLayer

-- What becomes of the end below the wrappers.
pub data Reached : Type 0 where
  untouched closed interrupted : Reached

-- Whether the close hook is called, and what reaches the end.
unfoldable pub close_writer : List WriterLayer → Bool × Reached
close_writer [] = (false, closed)
close_writer (WriterLayer.tracked ∷ layers) = (true, (close_writer layers).1)
close_writer (WriterLayer.limited ∷ layers) = close_writer layers
close_writer (WriterLayer.counted ∷ layers) = close_writer layers

-- The limited writer has a `Close` and no `Interrupt`.
unfoldable pub interrupt_writer : List WriterLayer → Bool × Reached
unfolding close_writer
interrupt_writer [] = (false, interrupted)
interrupt_writer (WriterLayer.tracked ∷ layers) = (true, (interrupt_writer layers).1)
interrupt_writer (WriterLayer.limited ∷ layers) = close_writer layers
interrupt_writer (WriterLayer.counted ∷ layers) = interrupt_writer layers

-- The limited reader has neither.
unfoldable pub interrupt_reader : List ReaderLayer → Reached
interrupt_reader [] = interrupted
interrupt_reader (ReaderLayer.limited ∷ layers) = untouched
interrupt_reader (ReaderLayer.counted ∷ layers) = interrupt_reader layers
interrupt_reader (ReaderLayer.cached ∷ layers) = interrupt_reader layers

abbrev pub wrap : {A : Type 0} → Bool → A → List A → List A
wrap true layer layers = layer ∷ layers
wrap false layer layers = layers

-- The wrappers of `DispatchLink`: with a hook, with a bucket, with a counter on the downlink.
unfoldable pub dispatch_link_writer : Bool → Bool → Bool → List WriterLayer
dispatch_link_writer has_hook has_bucket counts =
    wrap counts WriterLayer.counted
      (wrap has_bucket WriterLayer.limited (wrap has_hook WriterLayer.tracked []))

-- With a bucket, with a counter on the uplink.
unfoldable pub dispatch_link_reader : Bool → Bool → List ReaderLayer
dispatch_link_reader has_bucket counts =
    wrap counts ReaderLayer.counted (wrap has_bucket ReaderLayer.limited [])

abbrev pub sum : List ℕ → ℕ
sum [] = 0
sum (n ∷ ns) = n + sum ns

sum-append : (ns ms : List ℕ) → sum (ns ++ ms) ≡ sum ns + sum ms
sum-append [] ms = omega arith
sum-append (n ∷ ns) ms = omega (arith, sum-append ns ms)

abbrev pub concat_all : List Bytes → Bytes
concat_all [] = []
concat_all (mb ∷ mbs) = mb ++ concat_all mbs

-- Whatever is written through a limited writer is delivered whole and in order, and just as many bytes
-- were waited for as were delivered.
pub write_all_limited-waits :
    (mbs : List Bytes) (w : Limited)
    → let w' = write_all_limited mbs w in
      (w'.written ≡ w.written ++ concat_all mbs)
      × (sum w'.waits ≡ sum w.waits + length (concat_all mbs))
unfolding write_all_limited write_limited
write_all_limited-waits [] w = (sym (append-nil w.written), omega arith)
write_all_limited-waits (mb ∷ mbs) w =
    let (whole, waited) = write_all_limited-waits mbs (write_limited mb w) in
    (
      whole ∙ append_assoc w.written mb (concat_all mbs),
      omega (arith, waited, sum-append w.waits (length mb ∷ []), length-append mb (concat_all mbs)),
    )

-- However a link's writer is ended, its end is told and the close hook of a tracked connection is
-- called; an interrupt of the reader of a user with a rate limit reaches nothing, and that of any other
-- reader its end.
pub dispatch_link_ends :
    (has_hook has_bucket counts : Bool)
    → let writer = dispatch_link_writer has_hook has_bucket counts in
      (close_writer writer ≡ (has_hook, closed))
      × (((interrupt_writer writer).0 ≡ has_hook)
          × (((interrupt_writer writer).1 ≡ (if has_bucket then closed else interrupted))
              × (interrupt_reader (dispatch_link_reader has_bucket counts)
                  ≡ (if has_bucket then untouched else interrupted))))
unfolding dispatch_link_writer dispatch_link_reader close_writer interrupt_writer interrupt_reader
dispatch_link_ends true true true = (refl, (refl, (refl, refl)))
dispatch_link_ends true true false = (refl, (refl, (refl, refl)))
dispatch_link_ends true false true = (refl, (refl, (refl, refl)))
dispatch_link_ends true false false = (refl, (refl, (refl, refl)))
dispatch_link_ends false true true = (refl, (refl, (refl, refl)))
dispatch_link_ends false true false = (refl, (refl, (refl, refl)))
dispatch_link_ends false false true = (refl, (refl, (refl, refl)))
dispatch_link_ends false false false = (refl, (refl, (refl, refl)))
