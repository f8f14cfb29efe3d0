-- ===== src/Dispatcher/Cache.antt =====
-- `cachedReader` of app/mydispatcher/default.go: what the sniffer has looked at goes on to the
-- reader of the connection. The pipe below is xray-core's, an interface here.
use xray_r4u.Base.{
  ℕ, ◌≡◌, refl, sym, ap, ◌∙◌, Bool, false, List, [], ◌∷◌, ◌++◌, Bytes, if◌then◌else◌, take,
}
use xray_r4u.Text.{is_empty}
use mathlib.Core.List.{append_assoc}

-- A pipe's reader: what is still to come, and its reads, each with the bytes and whether it failed.
pub record Pipe : Type 1 where
  pub Reader : Type 0
  pub rest : Reader → Bytes
  pub read_multi_buffer : Reader → (Bytes × Bool) × Reader
  pub read_multi_buffer_timeout : Reader → (Bytes × Bool) × Reader
  pub read-rest : (r : Reader) → rest r ≡ (read_multi_buffer r).0.0 ++ rest (read_multi_buffer r).1
  pub read_timeout-rest :
      (r : Reader)
      → rest r ≡ (read_multi_buffer_timeout r).0.0 ++ rest (read_multi_buffer_timeout r).1

module _ (x : Pipe) where
  open x use {Reader, rest, read_multi_buffer, read_multi_buffer_timeout}

  -- A nil cache and an empty one are `[]`.
  pub record CachedReader : Type 0 where
    pub reader : Reader
    pub cache : Bytes

  -- Reads what is there within the timeout, whatever the read says, and gives the sniffer as much
  -- of the cache as its buffer holds.
  unfoldable pub cache_payload : ℕ → CachedReader → Bytes × CachedReader
  cache_payload size r =
      let ((mb, _), reader') = read_multi_buffer_timeout r.reader in
      let all = r.cache ++ mb in (take size all, record { reader = reader'; cache = all })

  -- The cache is given out whole, once.
  unfoldable pub read_internal : CachedReader → Bytes × CachedReader
  read_internal r = (r.cache, record r { cache = [] })

  unfoldable pub read : CachedReader → (Bytes × Bool) × CachedReader
  unfolding read_internal
  read r =
      let (mb, r') = read_internal r in
      let ((fresh, fault), reader') = read_multi_buffer r.reader in
      if is_empty mb
      then ((fresh, fault), record { reader = reader'; cache = [] })
      else ((mb, false), r')

  unfoldable pub read_timeout : CachedReader → (Bytes × Bool) × CachedReader
  unfolding read_internal
  read_timeout r =
      let (mb, r') = read_internal r in
      let ((fresh, fault), reader') = read_multi_buffer_timeout r.reader in
      if is_empty mb
      then ((fresh, fault), record { reader = reader'; cache = [] })
      else ((mb, false), r')

  -- What readers of the connection have yet to get.
  abbrev pub still_to_read : CachedReader → Bytes
  still_to_read r = r.cache ++ rest r.reader

  -- A use of the reader: by the sniffer, with its buffer's size, or by the outbound handler.
  pub data Use : Type 0 where
    look : ℕ → Use
    take_in : Use
    take_in_time : Use

  abbrev pub use_once : Use → CachedReader → Bytes × CachedReader
  use_once (look size) r = ([], (cache_payload size r).1)
  use_once take_in r = ((read r).0.0, (read r).1)
  use_once take_in_time r = ((read_timeout r).0.0, (read_timeout r).1)

  -- What a sequence of uses has given to the outbound handler, and the reader behind it.
  unfoldable pub use_all : List Use → CachedReader → Bytes × CachedReader
  use_all [] r = ([], r)
  use_all (u ∷ us) r =
      let (mb, r') = use_once u r in let (more, r'') = use_all us r' in (mb ++ more, r'')

  cache_payload-still_to_read :
      (size : ℕ) (r : CachedReader) → still_to_read r ≡ still_to_read (cache_payload size r).1
  unfolding cache_payload
  cache_payload-still_to_read size r =
      ap (λ s. r.cache ++ s) (x.read_timeout-rest r.reader)
      ∙ sym (
          append_assoc r.cache (read_multi_buffer_timeout r.reader).0.0
            (rest (read_multi_buffer_timeout r.reader).1))

  read-keeps :
      (p : Reader) (c : Bytes)
      → let r : CachedReader = record { reader = p; cache = c } in
        still_to_read r ≡ (read r).0.0 ++ still_to_read (read r).1
  unfolding read
  read-keeps p [] = x.read-rest p
  read-keeps p (c ∷ cs) = refl

  read_timeout-keeps :
      (p : Reader) (c : Bytes)
      → let r : CachedReader = record { reader = p; cache = c } in
        still_to_read r ≡ (read_timeout r).0.0 ++ still_to_read (read_timeout r).1
  unfolding read_timeout
  read_timeout-keeps p [] = x.read_timeout-rest p
  read_timeout-keeps p (c ∷ cs) = refl

  use_once-still_to_read :
      (u : Use) (r : CachedReader)
      → still_to_read r ≡ (use_once u r).0 ++ still_to_read (use_once u r).1
  use_once-still_to_read (look size) r = cache_payload-still_to_read size r
  use_once-still_to_read take_in r = read-keeps r.reader r.cache
  use_once-still_to_read take_in_time r = read_timeout-keeps r.reader r.cache

  -- However the sniffer's looks and the handler's reads alternate, what the handler has got and
  -- what is left make up the stream as it was: no byte is lost, doubled or moved by the sniffing.
  pub use_all-still_to_read :
      (us : List Use) (r : CachedReader)
      → still_to_read r ≡ (use_all us r).0 ++ still_to_read (use_all us r).1
  unfolding use_all
  use_all-still_to_read [] r = refl
  use_all-still_to_read (u ∷ us) r =
      let r' = (use_once u r).1 in
      use_once-still_to_read u r
      ∙ ap (λ s. (use_once u r).0 ++ s) (use_all-still_to_read us r')
      ∙ sym (append_assoc (use_once u r).0 (use_all us r').0 (still_to_read (use_all us r').1))
