-- ===== src/Panel/Redact.antt =====
-- What the client writes into logs and errors: `redactKey`, `redactSensitiveValue` and
-- `truncateForLog` of api/v2board/v2board.go.
use xray_r4u.Base.{
  ℕ, ◌+◌, ◌≤◌, ◌<◌, ◌≡◌, refl, sym, ap, ◌⊎◌, Bool, true, false, List, [], ◌∷◌, ◌++◌, Bytes,
  bytes_beq, leb, if◌then◌else◌, ◌||◌, codes, length, take, length-append, length-take, arith,
}
use xray_r4u.Panel.Json.{Value, Items, Fields, nil, cons, done, field}

abbrev stars : Bytes
stars = codes "****"

unfoldable pub redact_key : Bytes → Bytes
redact_key [] = []
redact_key (c ∷ key) = if leb (length (c ∷ key)) 4 then stars else take 4 (c ∷ key) ++ stars

abbrev member : Bytes → List Bytes → Bool
member k [] = false
member k (j ∷ ks) = bytes_beq j k || member k ks

-- `sensitiveJSONKeys`
abbrev sensitive_json_keys : List Bytes
sensitive_json_keys =
    codes "private_key"
    ∷ codes "privateKey"
    ∷ codes "mldsa65_seed"
    ∷ codes "mldsa65Seed"
    ∷ codes "token"
    ∷ codes "password"
    ∷ codes "secret"
    ∷ codes "api_key"
    ∷ codes "apiKey"
    ∷ codes "Authorization"
    ∷ []

pub is_sensitive : Bytes → Bool
is_sensitive k = member k sensitive_json_keys

unfoldable mutual
  pub redact_sensitive_value : Value → Value
  redact_sensitive_value Value.null = Value.null
  redact_sensitive_value (Value.boolean b) = Value.boolean b
  redact_sensitive_value (Value.number i f) = Value.number i f
  redact_sensitive_value (Value.text t) = Value.text t
  redact_sensitive_value (Value.array vs) = Value.array (redact_items vs)
  redact_sensitive_value (Value.object fs) = Value.object (redact_fields fs)

  pub redact_items : Items → Items
  redact_items nil = nil
  redact_items (cons v vs) = cons (redact_sensitive_value v) (redact_items vs)

  pub redact_fields : Fields → Fields
  redact_fields done = done
  redact_fields (field k v fs) =
      let kept = redact_sensitive_value v in
      field k (if is_sensitive k then Value.text stars else kept) (redact_fields fs)

-- "…" is three bytes of UTF-8.
unfoldable pub truncate_for_log : Bytes → ℕ → Bytes
truncate_for_log s max =
    if leb max 0 || leb (length s) max then s else take max s ++ (226 ∷ 128 ∷ 166 ∷ [])

abbrev mutual
  -- No field of a sensitive name, at any depth, shows anything but stars.
  pub IsRedacted : Value → Type 0
  IsRedacted Value.null = Unit
  IsRedacted (Value.boolean b) = Unit
  IsRedacted (Value.number i f) = Unit
  IsRedacted (Value.text t) = Unit
  IsRedacted (Value.array vs) = AreRedacted vs
  IsRedacted (Value.object fs) = AreRedactedFields fs

  pub AreRedacted : Items → Type 0
  AreRedacted nil = Unit
  AreRedacted (cons v vs) = IsRedacted v × AreRedacted vs

  pub AreRedactedFields : Fields → Type 0
  AreRedactedFields done = Unit
  AreRedactedFields (field k v fs) =
      (if is_sensitive k then v ≡ Value.text stars else IsRedacted v) × AreRedactedFields fs

if-IsRedacted :
    (b : Bool) (v : Value)
    → IsRedacted v
    → if b
      then (if b then Value.text stars else v) ≡ Value.text stars
      else IsRedacted (if b then Value.text stars else v)
if-IsRedacted true v h = refl
if-IsRedacted false v h = h

mutual
  unfolding redact_sensitive_value

  value-IsRedacted : (v : Value) → IsRedacted (redact_sensitive_value v)
  value-IsRedacted Value.null = tt
  value-IsRedacted (Value.boolean b) = tt
  value-IsRedacted (Value.number i f) = tt
  value-IsRedacted (Value.text t) = tt
  value-IsRedacted (Value.array vs) = items-AreRedacted vs
  value-IsRedacted (Value.object fs) = fields-AreRedacted fs

  items-AreRedacted : (vs : Items) → AreRedacted (redact_items vs)
  items-AreRedacted nil = tt
  items-AreRedacted (cons v vs) = (value-IsRedacted v, items-AreRedacted vs)

  fields-AreRedacted : (fs : Fields) → AreRedactedFields (redact_fields fs)
  fields-AreRedacted done = tt
  fields-AreRedacted (field k v fs) = (
    if-IsRedacted (is_sensitive k) (redact_sensitive_value v) (value-IsRedacted v),
    fields-AreRedacted fs,
  )

keep-field :
    (b : Bool) (v w : Value)
    → (if b then v ≡ Value.text stars else IsRedacted v)
    → (IsRedacted v → w ≡ v)
    → (if b then Value.text stars else w) ≡ v
keep-field true v w h k = sym h
keep-field false v w h k = k h

mutual
  unfolding redact_sensitive_value

  value-keep : (v : Value) → IsRedacted v → redact_sensitive_value v ≡ v
  value-keep Value.null h = refl
  value-keep (Value.boolean b) h = refl
  value-keep (Value.number i f) h = refl
  value-keep (Value.text t) h = refl
  value-keep (Value.array vs) h = ap Value.array (items-keep vs h)
  value-keep (Value.object fs) h = ap Value.object (fields-keep fs h)

  items-keep : (vs : Items) → AreRedacted vs → redact_items vs ≡ vs
  items-keep nil h = refl
  items-keep (cons v vs) h = cc (value-keep v h.0, items-keep vs h.1)

  fields-keep : (fs : Fields) → AreRedactedFields fs → redact_fields fs ≡ fs
  fields-keep done h = refl
  fields-keep (field k v fs) h = cc (
    keep-field (is_sensitive k) v (redact_sensitive_value v) h.0 (value-keep v),
    fields-keep fs h.1,
  )

-- After redaction no field of a sensitive name shows its value, at any depth, and a second redaction
-- changes nothing.
pub redact_sensitive_value-IsRedacted :
    (v : Value)
    → IsRedacted (redact_sensitive_value v)
      × (redact_sensitive_value (redact_sensitive_value v) ≡ redact_sensitive_value v)
redact_sensitive_value-IsRedacted v =
    (value-IsRedacted v, value-keep (redact_sensitive_value v) (value-IsRedacted v))

-- A key in a log tells no more than its first four bytes, and of a key of up to four bytes only
-- that it is not empty: two keys that agree in these look the same.
pub redact_key_hides :
    (k j : Bytes)
    → ((0 < length k) × (length k ≤ 4) × (0 < length j) × (length j ≤ 4))
      ⊎ ((4 < length k) × (4 < length j) × (take 4 k ≡ take 4 j))
    → redact_key k ≡ redact_key j
unfolding redact_key
redact_key_hides [] [] h = refl
redact_key_hides [] (d ∷ j) h = absurd (omega arith)
redact_key_hides (c ∷ k) [] h = absurd (omega arith)
redact_key_hides (c ∷ k) (d ∷ j) h = ground arith

-- A snippet in a log has at most `max` bytes and the mark that it was cut.
pub length-truncate_for_log :
    (s : Bytes) (max : ℕ) → 0 < max → length (truncate_for_log s max) ≤ max + 3
unfolding truncate_for_log
length-truncate_for_log s max h =
    ground (arith, length-append (take max s) (226 ∷ 128 ∷ 166 ∷ []), length-take max s)
