-- ===== src/Certs/Guard.antt =====
-- Which variables a provider's configuration can reach (common/legocmd/lego.go).
use xray_r4u.Base.{
  ◌≡◌, refl, Bool, true, false, Option, none, some, List, [], ◌∷◌, ◌++◌, Bytes, bytes_beq,
  bytes_beq_iff, if◌then◌else◌, ◌&&◌, ◌||◌, not, arith, inl, inr, ◌⊎◌, Bool-cases, codes, ltb,
  length,
}
use xray_r4u.GoMap.{Map}
use xray_r4u.Text.{has_prefix, is_empty}
use xray_r4u.Certs.Keys.{
  allowed_dns_env_key, is_listed, blocked_env_keys, to_upper, is_reserved, has_separator, all_word,
}
use xray_r4u.Certs.System.{System}
use xray_r4u.Certs.Environment.{Prev, restore, saved_now, apply_each, apply_dns_env, put_back}

-- A variable of the loader, in any case, or one of the listed names.
abbrev pub IsProtected : Bytes → Type 0
IsProtected key =
    ((rest : Bytes) × (to_upper key ≡ codes "LD_" ++ rest))
    ⊎ (((rest : Bytes) × (to_upper key ≡ codes "DYLD_" ++ rest))
        ⊎ (is_listed key blocked_env_keys ≡ true))

-- The tests of `allowedDNSEnvKey`, the second or third of which holds.
refused :
    (malformed listed reserved lego long word : Bool)
    → (listed ≡ true) ⊎ (reserved ≡ true)
    → (if malformed
        then false
        else if listed
        then false
        else if reserved
        then false
        else if lego
        then true
        else if long
        then false
        else word)
      ≡ false
refused malformed listed reserved lego long word h = ground arith

ld-is_reserved : (name rest : Bytes) → name ≡ codes "LD_" ++ rest → is_reserved name ≡ true
unfolding has_prefix
ld-is_reserved name rest e = rw e refl

dyld-is_reserved : (name rest : Bytes) → name ≡ codes "DYLD_" ++ rest → is_reserved name ≡ true
unfolding has_prefix
dyld-is_reserved name rest e = rw e refl

listed_or_reserved :
    (key : Bytes)
    → IsProtected key
    → (is_listed key blocked_env_keys ≡ true) ⊎ (is_reserved (to_upper key) ≡ true)
listed_or_reserved key (inl (rest, e)) = inr (ld-is_reserved (to_upper key) rest e)
listed_or_reserved key (inr (inl (rest, e))) = inr (dyld-is_reserved (to_upper key) rest e)
listed_or_reserved key (inr (inr h)) = inl h

not_allowed : (key : Bytes) → IsProtected key → allowed_dns_env_key key ≡ false
unfolding allowed_dns_env_key
not_allowed key h =
    refused (is_empty key || has_separator key) (is_listed key blocked_env_keys)
      (is_reserved (to_upper key)) (has_prefix (to_upper key) (codes "LEGO_"))
      (ltb 128 (length key)) (all_word key) (listed_or_reserved key h)

all_but : Bytes → List Prev → Bool
all_but j [] = true
all_but j (p ∷ saved) = not (bytes_beq p.key j) && all_but j saved

module _ (x : System) where
  open x use {State, lookup_env, setenv}

  put_back-other :
      (key j : Bytes) (val : Option Bytes) (s : State)
      → bytes_beq key j ≡ false
      → lookup_env j (put_back x key val s) ≡ lookup_env j s
  put_back-other key j none s ne = rw (x.lookup_env-unsetenv key j s) (rw ne refl)
  put_back-other key j (some val) s ne = elim (Bool-cases (setenv key val s).0) [
    | inl done ↦ rw (x.lookup_env-setenv key val j s done) (rw ne refl)
    | inr failed ↦ x.lookup_env-failed_setenv key val j s failed
  ]

  restore-other :
      (j : Bytes) (saved : List Prev) (s : State)
      → all_but j saved ≡ true
      → lookup_env j (restore x saved s) ≡ lookup_env j s
  unfolding restore all_but
  restore-other j [] s h = refl
  restore-other j (p ∷ saved) s h =
      ground
        (arith, restore-other j saved (put_back x p.key p.val s), put_back-other p.key j p.val s)

  apply_each-other :
      (j : Bytes) (env : Map Bytes Bytes) (saved : List Prev) (s : State)
      → allowed_dns_env_key j ≡ false
      → all_but j saved ≡ true
      → lookup_env j (apply_each x env saved s).1 ≡ lookup_env j s
  unfolding apply_each all_but
  apply_each-other j [] saved s h k = refl
  apply_each-other j ((key, value) ∷ env) saved s h k =
      let next = (setenv key value s).1 in
      ground (
        arith,
        bytes_beq_iff key j,
        put_back-other key j (some value) s,
        restore-other j saved next,
        apply_each-other j env (saved_now x key s ∷ saved) next,
      )

  -- Whatever the provider's configuration holds, and however it ends: lego sees the listed names, and
  -- every variable that begins with LD_ or DYLD_ in any case, as the process has them.
  pub apply_dns_env-protects :
      (env : Map Bytes Bytes) (s : State) (key : Bytes)
      → IsProtected key
      → lookup_env key (apply_dns_env x env s).1 ≡ lookup_env key s
  unfolding apply_dns_env all_but
  apply_dns_env-protects env s key h = apply_each-other key env [] s (not_allowed key h) refl
