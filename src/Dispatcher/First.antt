-- ===== src/Dispatcher/First.antt =====
-- Whose answer `Sniff` and `SniffMetadata` of app/mydispatcher/sniffer.go give.
use xray_r4u.Base.{
  ◌≡◌, ◌≢◌, ◌↔◌, refl, Bool, true, false, Option, none, some, List, [], ◌∷◌, Bytes, arith, inl, inr,
  ◌⊎◌, Bool-cases,
}
use xray_r4u.Dispatcher.Sniff.{
  SniffResult, Answer, found, no_clue, unknown_content, timed_out, fault, ProtocolSniffer, Tried,
  hit, pending, keep_pending, next_try, try_content, try_metadata, settle, sniff, sniff_metadata,
}

abbrev pub result_of : Answer → Option SniffResult
result_of (found result) = some result
result_of _ = none

-- The first sniffer of a kind that has a result.
pub data FirstHit (kind : Bool) (payload : Option Bytes) (result : SniffResult)
    : List ProtocolSniffer → Type 0 where
  here :
      (si : ProtocolSniffer) (others : List ProtocolSniffer)
      → si.metadata ≡ kind
      → si.sniff_protocol payload ≡ found result
      → FirstHit kind payload result (si ∷ others)
  skip :
      (si : ProtocolSniffer) (others : List ProtocolSniffer)
      → (si.metadata ≢ kind) ⊎ (result_of (si.sniff_protocol payload) ≡ none)
      → FirstHit kind payload result others
      → FirstHit kind payload result (si ∷ others)

keep_pending-hit :
    (si : ProtocolSniffer) (rest : Tried) (result : SniffResult)
    → (keep_pending si rest ≡ hit result) ↔ (rest ≡ hit result)
keep_pending-hit si (hit other) result = (λ e. e, λ e. e)
keep_pending-hit si (pending others) result =
    (λ e. absurd (ground arith), λ e. absurd (ground arith))

next_try-hit :
    (si : ProtocolSniffer) (a : Answer) (rest : Tried) (result : SniffResult)
    → next_try si a rest ≡ hit result
    → (a ≡ found result) ⊎ ((result_of a ≡ none) × (rest ≡ hit result))
next_try-hit si (found other) rest result e = inl (ground arith)
next_try-hit si no_clue rest result e = inr (refl, (keep_pending-hit si rest result).0 e)
next_try-hit si unknown_content rest result e = inr (refl, e)
next_try-hit si timed_out rest result e = inr (refl, e)
next_try-hit si fault rest result e = inr (refl, e)

skip-next_try :
    (si : ProtocolSniffer) (a : Answer) (rest : Tried) (result : SniffResult)
    → result_of a ≡ none
    → rest ≡ hit result
    → next_try si a rest ≡ hit result
skip-next_try si (found other) rest result n e = absurd (ground arith)
skip-next_try si no_clue rest result n e = (keep_pending-hit si rest result).1 e
skip-next_try si unknown_content rest result n e = e
skip-next_try si timed_out rest result n e = e
skip-next_try si fault rest result n e = e

tried-FirstHit :
    (kind : Bool) (payload : Option Bytes) (si : ProtocolSniffer) (others : List ProtocolSniffer)
    (rest : Tried) (result : SniffResult)
    → si.metadata ≡ kind
    → (rest ≡ hit result → FirstHit kind payload result others)
    → next_try si (si.sniff_protocol payload) rest ≡ hit result
    → FirstHit kind payload result (si ∷ others)
tried-FirstHit kind payload si others rest result m later e =
    elim (next_try-hit si (si.sniff_protocol payload) rest result e) [
      | inl now ↦ FirstHit.here si others m now
      | inr (n, q) ↦ FirstHit.skip si others (inr n) (later q)
    ]

try_content-FirstHit :
    (payload : Bytes) (all : List ProtocolSniffer) (result : SniffResult)
    → try_content payload all ≡ hit result
    → FirstHit false (some payload) result all
unfolding try_content
try_content-FirstHit payload [] result e = absurd (ground arith)
try_content-FirstHit payload (si ∷ others) result e =
    let later = try_content-FirstHit payload others result in
    elim (Bool-cases si.metadata) [
      | inl m ↦
          FirstHit.skip si others (inl (λ q. absurd (ground (arith, m, q)))) (later (rw m at e))
      | inr m ↦
          tried-FirstHit false (some payload) si others (try_content payload others) result m later
            (simp m at e)
    ]

try_metadata-FirstHit :
    (all : List ProtocolSniffer) (result : SniffResult)
    → try_metadata all ≡ hit result
    → FirstHit true none result all
unfolding try_metadata
try_metadata-FirstHit [] result e = absurd (ground arith)
try_metadata-FirstHit (si ∷ others) result e =
    let later = try_metadata-FirstHit others result in
    elim (Bool-cases si.metadata) [
      | inl m ↦
          tried-FirstHit true none si others (try_metadata others) result m later (simp m at e)
      | inr m ↦
          FirstHit.skip si others (inl (λ q. absurd (ground (arith, m, q))))
            (later ((keep_pending-hit si (try_metadata others) result).0 (simp m at e)))
    ]

FirstHit-try_content :
    {payload : Bytes} {result : SniffResult} {all : List ProtocolSniffer}
    → FirstHit false (some payload) result all
    → try_content payload all ≡ hit result
unfolding try_content
FirstHit-try_content (FirstHit.here si others kind e) = rw (kind, e) refl
FirstHit-try_content {payload} {result = result} (FirstHit.skip si others why h) =
    let later = FirstHit-try_content h in
    elim (Bool-cases si.metadata) [
      | inl m ↦ rw m later
      | inr m ↦ elim why [
        | inl other ↦ absurd (other m)
        | inr n ↦ simp m (
            skip-next_try si (si.sniff_protocol (some payload)) (try_content payload others) result
              n later)
      ]
    ]

FirstHit-try_metadata :
    {result : SniffResult} {all : List ProtocolSniffer}
    → FirstHit true none result all
    → try_metadata all ≡ hit result
unfolding try_metadata
FirstHit-try_metadata (FirstHit.here si others kind e) = rw (kind, e) refl
FirstHit-try_metadata {result = result} (FirstHit.skip si others why h) =
    let later = FirstHit-try_metadata h in
    elim (Bool-cases si.metadata) [
      | inr m ↦ simp m ((keep_pending-hit si (try_metadata others) result).1 later)
      | inl m ↦ elim why [
        | inl other ↦ absurd (other m)
        | inr n ↦
            simp m (skip-next_try si (si.sniff_protocol none) (try_metadata others) result n later)
      ]
    ]

settle-found :
    (all : List ProtocolSniffer) (t : Tried) (result : SniffResult)
    → ((settle all t).0 ≡ found result) ↔ (t ≡ hit result)
settle-found all (hit other) result = (λ e. ground arith, λ e. ground arith)
settle-found all (pending []) result = (λ e. absurd (ground arith), λ e. absurd (ground arith))
settle-found all (pending (si ∷ rest)) result =
    (λ e. absurd (ground arith), λ e. absurd (ground arith))

-- Sniffing gives the result of the first sniffer of its kind that has one, and no other, where
-- those before it have none: for a payload among the content sniffers, without one among the
-- metadata sniffers.
pub sniff-FirstHit :
    (payload : Bytes) (all : List ProtocolSniffer) (result : SniffResult)
    → (((sniff payload all).0 ≡ found result) ↔ FirstHit false (some payload) result all)
      × (((sniff_metadata all).0 ≡ found result) ↔ FirstHit true none result all)
unfolding sniff sniff_metadata
sniff-FirstHit payload all result =
    let content = settle-found all (try_content payload all) result in
    let meta = settle-found all (try_metadata all) result in
    (
      (
        λ e. try_content-FirstHit payload all result (content.0 e),
        λ w. content.1 (FirstHit-try_content w),
      ),
      (λ e. try_metadata-FirstHit all result (meta.0 e), λ w. meta.1 (FirstHit-try_metadata w)),
    )
