-- ===== src/Text/Split.antt =====
-- `strings.Split` by one byte, and the part behind the last separator.
use xray_r4u.Base.{
  ℕ, ◌≡◌, refl, ◌≢◌, List, [], ◌∷◌, ◌++◌, Bytes, if◌then◌else◌, nat_beq, arith, All,
}

abbrev push_head : ℕ → List Bytes → List Bytes
push_head c [] = (c ∷ []) ∷ []
push_head c (p ∷ ps) = (c ∷ p) ∷ ps

-- `strings.Split(s, sep)`; the result has at least one part.
unfoldable pub split : ℕ → Bytes → List Bytes
split sep [] = [] ∷ []
split sep (c ∷ s) = let rest = split sep s in if nat_beq c sep then [] ∷ rest else push_head c rest

-- `parts[len(parts)-1]`
unfoldable pub last_part : List Bytes → Bytes
last_part [] = []
last_part (p ∷ []) = p
last_part (p ∷ q ∷ ps) = last_part (q ∷ ps)

split_clean : (sep : ℕ) (s : Bytes) → All (λ c. c ≢ sep) s → split sep s ≡ s ∷ []
unfolding split
split_clean sep [] h = refl
split_clean sep (c ∷ s) h = ground (arith, split_clean sep s h.1)

split-ne-nil : (sep : ℕ) (s : Bytes) → split sep s ≢ []
unfolding split
split-ne-nil sep [] = λ e. cc
split-ne-nil sep (c ∷ s) = ground (arith, split-ne-nil sep s)

push_head-append :
    (c : ℕ) (ps qs : List Bytes) → ps ≢ [] → push_head c (ps ++ qs) ≡ push_head c ps ++ qs
push_head-append c [] qs h = absurd (h refl)
push_head-append c (p ∷ ps) qs h = refl

-- A separator ends one part and begins another.
pub split-append : (sep : ℕ) (s t : Bytes) → split sep (s ++ sep ∷ t) ≡ split sep s ++ split sep t
unfolding split
split-append sep [] t = ground arith
split-append sep (c ∷ s) t = ground (
  arith,
  split-append sep s t,
  split-ne-nil sep s,
  push_head-append c (split sep s) (split sep t),
)

last_part-append : (ps qs : List Bytes) → qs ≢ [] → last_part (ps ++ qs) ≡ last_part qs
unfolding last_part
last_part-append [] qs h = refl
last_part-append (p ∷ []) [] h = absurd (h refl)
last_part-append (p ∷ []) (q ∷ qs) h = refl
last_part-append (p ∷ r ∷ ps) qs h = last_part-append (r ∷ ps) qs h

-- What stands behind the last separator is the last part.
pub last_part-split :
    (sep : ℕ) (s t : Bytes) → All (λ c. c ≢ sep) t → last_part (split sep (s ++ sep ∷ t)) ≡ t
unfolding last_part
last_part-split sep s t h =
    rw (split-append, last_part-append, split-ne-nil sep t) (rw (split_clean sep t h))
