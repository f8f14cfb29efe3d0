-- ===== src/GoMap/Defs.antt =====
-- The operations of a map: `m[k]`, `m[k] = v`, `delete(m, k)`, and the stores of a list of pairs.
use xray_r4u.Base.{List, [], ◌∷◌, Option, none, some, if◌then◌else◌, Eq, ◌==◌, ◌≡◌}

abbrev pub Map {ℓ κ} : Type ℓ → Type κ → Type (ℓ ⊔ κ)
Map K V = List (K × V)

module _ {ℓ κ} {K : Type ℓ} {V : Type κ} ⦃e : Eq K⦄ where
  unfoldable pub lookup : K → Map K V → Option V
  lookup key [] = none
  lookup key ((i, found) ∷ rest) = if i == key then some found else lookup key rest

  unfoldable pub delete : K → Map K V → Map K V
  delete key [] = []
  delete key ((i, w) ∷ m) = let rest = delete key m in if i == key then rest else (i, w) ∷ rest

  unfoldable pub insert : K → V → Map K V → Map K V
  insert key new [] = (key, new) ∷ []
  insert key new ((i, w) ∷ m) = if i == key then (key, new) ∷ m else (i, w) ∷ insert key new m

  -- No key stands twice: what every map of the program satisfies, since it is built by `insert`.
  abbrev pub IsMap : Map K V → Type κ
  IsMap [] = Unit
  IsMap ((k, v) ∷ m) = (lookup k m ≡ none) × IsMap m
