-- ===== src/Text/Decimal.antt =====
-- `fmt.Sprintf("%d", n)` and `strconv.Atoi`.
use xray_r4u.Base.{
  ℕ, zero, suc, ◌+◌, ◌-◌, ◌*◌, ◌/◌, ◌%◌, ◌^◌, ◌≤◌, ◌<◌, ◌≡◌, refl, Option, none, some, [], ◌∷◌,
  Bytes, ltb, leb, if◌then◌else◌, ◌&&◌, ℤ, pos, negsuc, nat_beq, arith, All, ◌≢◌, ◌∙◌,
}

-- The digits of `n` in front of `acc`; each round writes one, so `n + 1` rounds are enough.
digits_from : ℕ → ℕ → Bytes → Bytes
digits_from zero n acc = acc
digits_from (suc fuel) n acc =
    let rest = digits_from fuel (n / 10) ((48 + n % 10) ∷ acc) in
    if ltb n 10 then (48 + n) ∷ acc else rest

unfoldable pub digits : ℕ → Bytes
unfolding digits_from
digits n = digits_from (suc n) n []

-- `%d`
unfoldable pub show_int : ℤ → Bytes
unfolding digits
show_int (pos n) = digits n
show_int (negsuc n) = b'-' ∷ digits (suc n)

parse_digits : ℕ → Bytes → Option ℕ
parse_digits v [] = some v
parse_digits v (c ∷ s) =
    let rest = parse_digits (v * 10 + (c - 48)) s in if leb 48 c && leb c 57 then rest else none

-- The number behind the sign; no digit at all is an error.
parse_unsigned : Bytes → Option ℕ
unfolding parse_digits
parse_unsigned [] = none
parse_unsigned (c ∷ s) = parse_digits 0 (c ∷ s)

-- A value out of the range of a 64-bit `int` is an error too.
abbrev to_positive : Option ℕ → Option ℤ
to_positive none = none
to_positive (some n) = if ltb n (2 ^ 63) then some (pos n) else none

abbrev to_negative : Option ℕ → Option ℤ
to_negative none = none
to_negative (some zero) = some (pos 0)
to_negative (some (suc n)) = if ltb n (2 ^ 63) then some (negsuc n) else none

-- `strconv.Atoi`; `none` is its error.
unfoldable pub atoi : Bytes → Option ℤ
unfolding parse_unsigned
atoi [] = none
atoi (c ∷ s) =
    if nat_beq c b'-'
    then to_negative (parse_unsigned s)
    else if nat_beq c b'+'
    then to_positive (parse_unsigned s)
    else to_positive (parse_unsigned (c ∷ s))

parse-digits_from :
    (fuel n : ℕ) (acc : Bytes)
    → n < fuel
    → parse_digits 0 (digits_from fuel n acc) ≡ parse_digits n acc
unfolding digits_from parse_digits
parse-digits_from zero n acc h = elim h [ ]
parse-digits_from (suc fuel) n acc h =
    ground (arith, parse-digits_from fuel (n / 10) ((48 + n % 10) ∷ acc))

-- The first byte is a digit.
abbrev StartsDigit : Bytes → Type 0
StartsDigit [] = Unit
StartsDigit (c ∷ s) = (48 ≤ c) × (c ≤ 57)

digits_from-StartsDigit :
    (fuel n : ℕ) (acc : Bytes) → StartsDigit acc → StartsDigit (digits_from fuel n acc)
unfolding digits_from
digits_from-StartsDigit zero n acc h = h
digits_from-StartsDigit (suc fuel) n acc h =
    ground (arith, digits_from-StartsDigit fuel (n / 10) ((48 + n % 10) ∷ acc))

digits_from-ne-nil : (fuel n : ℕ) (acc : Bytes) → acc ≢ [] → digits_from fuel n acc ≢ []
unfolding digits_from
digits_from-ne-nil zero n acc h = h
digits_from-ne-nil (suc fuel) n acc h =
    ground (arith, digits_from-ne-nil fuel (n / 10) ((48 + n % 10) ∷ acc))

-- All bytes are digits.
abbrev IsNumeral : Bytes → Type 0
IsNumeral = All (λ c. (48 ≤ c) × (c ≤ 57))

digits_from-IsNumeral :
    (fuel n : ℕ) (acc : Bytes) → IsNumeral acc → IsNumeral (digits_from fuel n acc)
unfolding digits_from
digits_from-IsNumeral zero n acc h = h
digits_from-IsNumeral (suc fuel) n acc h =
    ground (arith, digits_from-IsNumeral fuel (n / 10) ((48 + n % 10) ∷ acc))

parse_unsigned_nonempty : (s : Bytes) → s ≢ [] → parse_unsigned s ≡ parse_digits 0 s
unfolding parse_unsigned
parse_unsigned_nonempty [] h = absurd (h refl)
parse_unsigned_nonempty (c ∷ s) h = refl

no_bar : (s : Bytes) → IsNumeral s → All (λ c. c ≢ b'|') s
no_bar [] h = tt
no_bar (c ∷ s) h = (omega arith, no_bar s h.1)

digits-ne-nil : (n : ℕ) → digits n ≢ []
unfolding digits
digits-ne-nil n = ground (arith, digits_from-ne-nil n (n / 10) ((48 + n % 10) ∷ []))

digits-StartsDigit : (n : ℕ) → StartsDigit (digits n)
unfolding digits
digits-StartsDigit n = digits_from-StartsDigit (suc n) n [] tt

pub digits-IsNumeral : (n : ℕ) → IsNumeral (digits n)
unfolding digits
digits-IsNumeral n = digits_from-IsNumeral (suc n) n [] tt

parse_digits-digits : (n : ℕ) → parse_digits 0 (digits n) ≡ some n
unfolding digits parse_digits
parse_digits-digits n = parse-digits_from (suc n) n [] (omega arith)

parse_unsigned-digits : (n : ℕ) → parse_unsigned (digits n) ≡ some n
parse_unsigned-digits n =
    parse_unsigned_nonempty (digits n) (digits-ne-nil n) ∙ parse_digits-digits n

-- Without a sign, `atoi` reads the whole text.
atoi_unsigned : (s : Bytes) → s ≢ [] → StartsDigit s → atoi s ≡ to_positive (parse_unsigned s)
unfolding atoi
atoi_unsigned [] h d = absurd (h refl)
atoi_unsigned (c ∷ s) h d = ground arith

-- A Go `int`.
abbrev pub IsInt64 : ℤ → Type 0
IsInt64 (pos n) = n < 2 ^ 63
IsInt64 (negsuc n) = n < 2 ^ 63

show_int-pos : (n : ℕ) → show_int (pos n) ≡ digits n
unfolding show_int
show_int-pos n = refl

show_int-negsuc : (n : ℕ) → show_int (negsuc n) ≡ b'-' ∷ digits (suc n)
unfolding show_int
show_int-negsuc n = refl

atoi_minus : (s : Bytes) → atoi (b'-' ∷ s) ≡ to_negative (parse_unsigned s)
unfolding atoi
atoi_minus s = refl

-- Parsing undoes printing.
pub atoi-show_int : (z : ℤ) → IsInt64 z → atoi (show_int z) ≡ some z
atoi-show_int (pos n) h =
    rw (show_int-pos, atoi_unsigned, digits-ne-nil n, digits-StartsDigit n, parse_unsigned-digits)
      (ground arith)
atoi-show_int (negsuc n) h = rw (show_int-negsuc, atoi_minus, parse_unsigned-digits) (ground arith)

-- A printed number holds no byte but digits and a sign.
pub show_int-no_bar : (z : ℤ) → All (λ c. c ≢ b'|') (show_int z)
show_int-no_bar (pos n) = rw show_int-pos (no_bar _ (digits-IsNumeral n))
show_int-no_bar (negsuc n) = rw show_int-negsuc ((omega arith), no_bar _ (digits-IsNumeral (suc n)))
