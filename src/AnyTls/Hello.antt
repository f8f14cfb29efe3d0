-- ===== src/AnyTls/Hello.antt =====
-- The first packet of an AnyTLS connection, as proxy/anytls/lib/service.go reads it.
use xray_r4u.Base.{
  ℕ, ◌+◌, ◌*◌, ◌≡◌, refl, ap, ◌∙◌, true, Option, none, some, [], ◌∷◌, ◌++◌, Bytes, bytes_eq,
  nat_beq, leb, le→leb, length, length-append, take, arith, inl, inr, Bool-cases, Option-cases,
}
use xray_r4u.GoMap.{lookup}
use xray_r4u.AnyTls.Fallback.{drop}
use xray_r4u.AnyTls.Service.{
  Service, fallback, accept, read_bytes, uint16, read_padding, read_size, read_hash, read_hello,
}

take-append : (xs ys : Bytes) → take (length xs) (xs ++ ys) ≡ xs
take-append [] ys = refl
take-append (x ∷ xs) ys = ap (λ s. x ∷ s) (take-append xs ys)

drop-append : (xs ys : Bytes) → drop (length xs) (xs ++ ys) ≡ ys
drop-append [] ys = refl
drop-append (x ∷ xs) ys = drop-append xs ys

read_bytes-append :
    (n : ℕ) (xs ys : Bytes) → length xs ≡ n → read_bytes n (xs ++ ys) ≡ some (xs, ys)
read_bytes-append n xs ys e =
    let fits : leb n (length (xs ++ ys)) ≡ true =
      le→leb n (length (xs ++ ys)) (omega (arith, length-append xs ys, e)) in
    rw (fits, ← e, take-append xs ys, drop-append xs ys) refl

read_padding-append :
    (packet name hash padding rest : Bytes)
    → read_padding packet name hash (length padding) (padding ++ rest) ≡ accept name hash rest
read_padding-append packet name hash [] rest = refl
read_padding-append packet name hash (c ∷ padding) rest =
    ground (arith, read_bytes-append (length (c ∷ padding)) (c ∷ padding) rest refl)

-- A hash, the padding's size in two bytes, the padding; what follows is the session's.
abbrev pub hello_of : Bytes → ℕ → ℕ → Bytes → Bytes → Bytes
hello_of hash high low padding rest = hash ++ high ∷ low ∷ (padding ++ rest)

-- The hello of a user, with padding of the size that it states, is read as that user's, and the
-- session gets just what stands behind the padding.
pub read_hello-hello_of :
    (s : Service) (hash padding rest name : Bytes) (high low : ℕ)
    → length hash ≡ 32
    → length padding ≡ high * 256 + low
    → lookup hash s.users ≡ some name
    → read_hello s (hello_of hash high low padding rest) ≡ accept name hash rest
unfolding read_hello
read_hello-hello_of s hash padding rest name high low e size known =
    let packet = hello_of hash high low padding rest in
    let behind = high ∷ low ∷ (padding ++ rest) in
    let body = padding ++ rest in
    let found : read_hash s.users packet (some (hash, behind))
        ≡ read_size packet name hash (read_bytes 2 behind) =
      rw (known, read_hash) refl in
    let padded : read_padding packet name hash (high * 256 + low) body ≡ accept name hash rest =
      rw (← size) (read_padding-append packet name hash padding rest) in
    ap (read_hash s.users packet) (read_bytes-append 32 hash behind e)
    ∙ found
    ∙ ap (read_size packet name hash) (read_bytes-append 2 (high ∷ low ∷ []) body refl)
    ∙ padded

read_padding-fallback :
    (packet name hash b replayed : Bytes) (size : ℕ)
    → read_padding packet name hash size b ≡ fallback replayed
    → replayed ≡ packet
read_padding-fallback packet name hash b replayed size e = elim (Bool-cases (nat_beq size 0)) [
  | inl m ↦ absurd (ground (arith, m, e))
  | inr m ↦ elim (Option-cases (read_bytes size b)) [
    | inl n ↦ ground (arith, m, n, e)
    | inr (parts, q) ↦ absurd (ground (arith, m, q, e))
  ]
]

read_size-fallback :
    (packet name hash replayed : Bytes) (o : Option (Bytes × Bytes))
    → read_size packet name hash o ≡ fallback replayed
    → replayed ≡ packet
read_size-fallback packet name hash replayed none e = ground arith
read_size-fallback packet name hash replayed (some (by, b)) e =
    read_padding-fallback packet name hash b replayed (uint16 by) e

-- A packet that goes to the fallback goes there whole.
pub read_hello-fallback :
    (s : Service) (packet replayed : Bytes)
    → read_hello s packet ≡ fallback replayed
    → replayed ≡ packet
unfolding read_hello
read_hello-fallback s packet replayed e = elim (Option-cases (read_bytes 32 packet)) [
  | inl n ↦ ground (arith, n, e)
  | inr ((hash, rest), q) ↦ elim (Option-cases (lookup hash s.users)) [
    | inl stranger ↦ ground (arith, q, stranger, e)
    | inr (name, known) ↦
        read_size-fallback packet name hash replayed (read_bytes 2 rest)
          (rw (q, read_hash, known) at e)
  ]
]
