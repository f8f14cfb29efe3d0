-- ===== src/Panel/Url.antt =====
-- `redactURL` of api/v2board/v2board.go: what may be logged of a URL.
use xray_r4u.Base.{
  ◌≡◌, refl, sym, ◌∙◌, Bool, true, false, Option, none, some, List, [], ◌∷◌, Bytes, if◌then◌else◌,
  codes, bytes_eq, bytes_beq_iff, arith, ◌⊎◌, inl, inr, Option-cases, Bool-cases, bytes_beq, ◌||◌,
}
use mathlib.Core.Path.{subst}
use xray_r4u.GoMap.{Map, lookup, insert, lookup-insert, lookup-insert_self}
use xray_r4u.Text.{is_empty}

-- Go's net/url: the query of a parsed URL by its names.
pub record UrlLib : Type 1 where
  pub Url : Type 0
  pub parse : Bytes → Option Url
  pub query : Url → Map Bytes (List Bytes)
  pub with_query : Map Bytes (List Bytes) → Url → Url
  pub show : Url → Bytes
  pub query-with_query : (q : Map Bytes (List Bytes)) (u : Url) → query (with_query q u) ≡ q

abbrev pub secret_keys : List Bytes
secret_keys = codes "token" ∷ codes "key" ∷ codes "password" ∷ codes "secret" ∷ codes "api_key" ∷ []

abbrev pub is_among : Bytes → List Bytes → Bool
is_among j [] = false
is_among j (key ∷ keys) = bytes_beq key j || is_among j keys

abbrev pub stars : List Bytes
stars = codes "****" ∷ []

abbrev pub has : Option (List Bytes) → Bool
has none = false
has (some values) = true

-- The query, and whether it was changed.
unfoldable pub redact_query :
    List Bytes → Map Bytes (List Bytes) × Bool → Map Bytes (List Bytes) × Bool
unfolding lookup insert
redact_query [] r = r
redact_query (key ∷ keys) (q, changed) =
    let there = has (lookup key q) in
    redact_query keys (if there then insert key stars q else q, there || changed)

-- A parameter is not there, or reads "****".
abbrev pub IsHidden : Option (List Bytes) → Type 0
IsHidden none = Unit {0}
IsHidden (some values) = values ≡ stars

insert-stars-IsHidden :
    (key j : Bytes) (q : Map Bytes (List Bytes))
    → IsHidden (lookup j q)
    → IsHidden (lookup j (if has (lookup key q) then insert key stars q else q))
insert-stars-IsHidden key j q h = elim (Bool-cases (has (lookup key q))) [
  | inr absent ↦ rw absent h
  | inl there ↦ elim (Bool-cases (bytes_beq key j)) [
    | inl same ↦ rw (there, lookup-insert key j stars q, same) refl
    | inr other ↦ rw (there, lookup-insert key j stars q, other) h
  ]
]

insert-stars-hides :
    (key : Bytes) (q : Map Bytes (List Bytes))
    → IsHidden (lookup key (if has (lookup key q) then insert key stars q else q))
insert-stars-hides key q = elim (Option-cases (lookup key q)) [
  | inl absent ↦ rw absent (rw absent tt)
  | inr (values, there) ↦ rw there (rw (lookup-insert_self key stars q) refl)
]

redact_query-IsHidden :
    (keys : List Bytes) (j : Bytes) (q : Map Bytes (List Bytes)) (changed : Bool)
    → IsHidden (lookup j q) ⊎ (is_among j keys ≡ true)
    → IsHidden (lookup j (redact_query keys (q, changed)).0)
unfolding redact_query
redact_query-IsHidden [] j q changed (inl h) = h
redact_query-IsHidden [] j q changed (inr e) = absurd (ground arith)
redact_query-IsHidden (key ∷ keys) j q changed (inl h) =
    redact_query-IsHidden keys j (if has (lookup key q) then insert key stars q else q)
      (has (lookup key q) || changed) (inl (insert-stars-IsHidden key j q h))
redact_query-IsHidden (key ∷ keys) j q changed (inr e) =
    let q' = if has (lookup key q) then insert key stars q else q in
    let changed' = has (lookup key q) || changed in
    elim (Bool-cases (bytes_beq key j)) [
      | inl same ↦ redact_query-IsHidden keys j q' changed' (
          inl (
            subst (λ (k : Bytes). IsHidden (lookup k q')) ((bytes_beq_iff key j).0 same)
              (insert-stars-hides key q)))
      | inr other ↦ redact_query-IsHidden keys j q' changed' (inr (rw other at e))
    ]

stays_changed :
    (keys : List Bytes) (q : Map Bytes (List Bytes)) (changed : Bool)
    → changed ≡ true
    → (redact_query keys (q, changed)).1 ≡ true
unfolding redact_query
stays_changed [] q changed e = e
stays_changed (key ∷ keys) q changed e =
    stays_changed keys (if has (lookup key q) then insert key stars q else q)
      (has (lookup key q) || changed) (ground arith)

unchanged_query :
    (keys : List Bytes) (q : Map Bytes (List Bytes)) (changed : Bool)
    → (redact_query keys (q, changed)).1 ≡ false
    → (redact_query keys (q, changed)).0 ≡ q
unfolding redact_query
unchanged_query [] q changed e = refl
unchanged_query (key ∷ keys) q changed e =
    let q' = if has (lookup key q) then insert key stars q else q in
    let changed' = has (lookup key q) || changed in
    let same : q' ≡ q = elim (Bool-cases (has (lookup key q))) [
      | inl there ↦ absurd (ground (arith, stays_changed keys q' changed'))
      | inr absent ↦ rw absent refl
    ] in
    unchanged_query keys q' changed' e ∙ same

module _ (x : UrlLib) where
  open x use {Url, parse, query, with_query, show}

  abbrev pub redacted : Url → Url
  redacted u =
      let (q, changed) = redact_query secret_keys (query u, false) in
      if changed then with_query q u else u

  abbrev pub show_redacted : Bytes → Option Url → Bytes
  show_redacted raw none = raw
  show_redacted raw (some u) = show (redacted u)

  unfoldable pub redact_url : Bytes → Bytes
  unfolding redact_query
  redact_url raw = if is_empty raw then raw else show_redacted raw (parse raw)

  redacted-query : (u : Url) → query (redacted u) ≡ (redact_query secret_keys (query u, false)).0
  redacted-query u = elim (Bool-cases (redact_query secret_keys (query u, false)).1) [
    | inl on ↦ rw on (x.query-with_query (redact_query secret_keys (query u, false)).0 u)
    | inr off ↦ rw off (sym (unchanged_query secret_keys (query u) false off))
  ]

  -- What is logged of a text that is a URL shows each parameter of a secret name, if it is there, as
  -- "****".
  pub redact_url-IsHidden :
      (raw : Bytes) (u : Url) (key : Bytes)
      → is_empty raw ≡ false
      → parse raw ≡ some u
      → is_among key secret_keys ≡ true
      → (u' : Url) × ((redact_url raw ≡ show u') × IsHidden (lookup key (query u')))
  unfolding redact_url
  redact_url-IsHidden raw u key some_text parsed secret = (
    redacted u,
    (
      rw (some_text, parsed) refl,
      subst (λ (q : Map Bytes (List Bytes)). IsHidden (lookup key q)) (sym (redacted-query u))
          (redact_query-IsHidden secret_keys key (query u) false (inr secret)),
    ),
  )
