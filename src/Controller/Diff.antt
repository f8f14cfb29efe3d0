-- ===== src/Controller/Diff.antt =====
-- `compareUserList` of service/controller/controller.go: which users leave the core and which enter
-- it, from one user list of the panel to the next.
use xray_r4u.Base.{
  ◌≡◌, refl, ap, ◌∙◌, Bool, true, false, Option, none, some, List, [], ◌∷◌, ◌++◌, Bytes, ℤ, int_beq,
  int_beq_iff, int_eq, bytes_beq, bytes_beq_iff, if◌then◌else◌, ◌||◌, not, arith, inl, inr,
  Option-cases,
}
use xray_r4u.GoMap.{Map, lookup, insert, delete, lookup-insert, lookup-delete}
use xray_r4u.Api.{UserInfo}

abbrev pub UserMap : Type 0
UserMap = Map ℤ UserInfo

unfoldable pub by_uid : List UserInfo → UserMap → UserMap
by_uid [] m = m
by_uid (u ∷ us) m = by_uid us (insert u.uid u m)

-- The credentials or the key of the user are new.
abbrev pub is_changed : UserInfo → UserInfo → Bool
is_changed u v = not (bytes_beq u.uuid v.uuid) || not (bytes_beq u.email v.email)

abbrev pub leaves : UserInfo → Option UserInfo → Bool
leaves u none = true
leaves u (some v) = is_changed u v

unfoldable pub deleted_users : UserMap → UserMap → List UserInfo
deleted_users new_map [] = []
deleted_users new_map ((uid, u) ∷ m) =
    let rest = deleted_users new_map m in if leaves u (lookup uid new_map) then u ∷ rest else rest

abbrev renew : UserInfo → Option UserInfo → List UserInfo → List UserInfo
renew u none rest = rest
renew u (some v) rest = if is_changed u v then v ∷ rest else rest

unfoldable pub changed_users : UserMap → UserMap → List UserInfo
changed_users new_map [] = []
changed_users new_map ((uid, u) ∷ m) = renew u (lookup uid new_map) (changed_users new_map m)

abbrev is_known : Option UserInfo → Bool
is_known none = false
is_known (some _) = true

unfoldable pub new_users : UserMap → UserMap → List UserInfo
new_users old_map [] = []
new_users old_map ((uid, u) ∷ m) =
    let rest = new_users old_map m in if is_known (lookup uid old_map) then rest else u ∷ rest

-- The users that leave, and those that enter.
unfoldable pub compare_user_list : List UserInfo → List UserInfo → List UserInfo × List UserInfo
compare_user_list old new =
    let old_map = by_uid old [] in
    let new_map = by_uid new [] in
    (deleted_users new_map old_map, changed_users new_map old_map ++ new_users old_map new_map)

-- What the controller does with the two lists: the first go, then the second come.
abbrev pub remove_all : List UserInfo → UserMap → UserMap
remove_all [] m = m
remove_all (u ∷ us) m = remove_all us (delete u.uid m)

abbrev pub has_uid : ℤ → List UserInfo → Bool
has_uid uid [] = false
has_uid uid (u ∷ us) = int_beq u.uid uid || has_uid uid us

-- The last user of a list with this uid; `before` if there is none.
abbrev pub last_with : ℤ → List UserInfo → Option UserInfo → Option UserInfo
last_with uid [] before = before
last_with uid (u ∷ us) before = last_with uid us (if int_beq u.uid uid then some u else before)

-- Each entry stands under its own uid, once.
abbrev pub IsKeyed : UserMap → Type 0
IsKeyed [] = Unit
IsKeyed ((uid, u) ∷ m) = (u.uid ≡ uid) × (lookup uid m ≡ none) × IsKeyed m

lookup-by_uid :
    (uid : ℤ) (us : List UserInfo) (m : UserMap)
    → lookup uid (by_uid us m) ≡ last_with uid us (lookup uid m)
unfolding by_uid
lookup-by_uid uid [] m = refl
lookup-by_uid uid (u ∷ us) m =
    lookup-by_uid uid us (insert u.uid u m) ∙ ap (last_with uid us) (lookup-insert u.uid uid u m)

insert-IsKeyed : (u : UserInfo) (m : UserMap) → IsKeyed m → IsKeyed (insert u.uid u m)
unfolding insert lookup
insert-IsKeyed u [] k = (refl, refl, tt)
insert-IsKeyed u ((uid, v) ∷ m) k = ground (
  arith,
  insert-IsKeyed u m k.2,
  int_beq_iff uid u.uid,
  int_beq_iff u.uid uid,
  lookup-insert u.uid uid u m,
)

pub by_uid-IsKeyed : (us : List UserInfo) (m : UserMap) → IsKeyed m → IsKeyed (by_uid us m)
unfolding by_uid
by_uid-IsKeyed [] m k = k
by_uid-IsKeyed (u ∷ us) m k = by_uid-IsKeyed us (insert u.uid u m) (insert-IsKeyed u m k)

lookup-remove_all :
    (uid : ℤ) (us : List UserInfo) (m : UserMap)
    → lookup uid (remove_all us m) ≡ (if has_uid uid us then none else lookup uid m)
lookup-remove_all uid [] m = refl
lookup-remove_all uid (u ∷ us) m =
    ground (arith, lookup-remove_all uid us (delete u.uid m), lookup-delete u.uid uid m)

last_with-append :
    (uid : ℤ) (us vs : List UserInfo) (before : Option UserInfo)
    → last_with uid (us ++ vs) before ≡ last_with uid vs (last_with uid us before)
last_with-append uid [] vs before = refl
last_with-append uid (u ∷ us) vs before = last_with-append uid us vs _

abbrev leaves_in : UserMap → ℤ → Option UserInfo → Bool
leaves_in new_map uid none = false
leaves_in new_map uid (some u) = leaves u (lookup uid new_map)

has_uid-deleted :
    (uid : ℤ) (new_map m : UserMap)
    → IsKeyed m
    → has_uid uid (deleted_users new_map m) ≡ leaves_in new_map uid (lookup uid m)
unfolding deleted_users lookup
has_uid-deleted uid new_map [] k = refl
has_uid-deleted uid new_map ((i, u) ∷ m) k =
    ground (arith, int_beq_iff i uid, has_uid-deleted uid new_map m k.2)

abbrev entered : Option UserInfo → Option UserInfo → Option UserInfo → Option UserInfo
entered none v before = before
entered (some u) none before = before
entered (some u) (some v) before = if is_changed u v then some v else before

last_with-changed :
    (uid : ℤ) (new_map m : UserMap) (before : Option UserInfo)
    → IsKeyed m
    → ((i : ℤ) (v : UserInfo) → lookup i new_map ≡ some v → v.uid ≡ i)
    → last_with uid (changed_users new_map m) before
      ≡ entered (lookup uid m) (lookup uid new_map) before
unfolding changed_users lookup
last_with-changed uid new_map [] before k own = refl
last_with-changed uid new_map ((i, u) ∷ m) before k own = elim (Option-cases (lookup i new_map)) [
  | inl e ↦ ground (arith, int_beq_iff i uid, last_with-changed uid new_map m before k.2 own)
  | inr (v, e) ↦ ground (
    arith,
    int_beq_iff i uid,
    int_beq_iff v.uid uid,
    own i v e,
    last_with-changed uid new_map m before k.2 own,
    last_with-changed uid new_map m (if int_beq v.uid uid then some v else before) k.2 own,
  )
]

abbrev joined : Option UserInfo → Option UserInfo → Option UserInfo → Option UserInfo
joined old none before = before
joined none (some v) before = some v
joined (some u) (some v) before = before

last_with-new :
    (uid : ℤ) (old_map m : UserMap) (before : Option UserInfo)
    → IsKeyed m
    → last_with uid (new_users old_map m) before ≡ joined (lookup uid old_map) (lookup uid m) before
unfolding new_users lookup
last_with-new uid old_map [] before k = ground arith
last_with-new uid old_map ((i, u) ∷ m) before k = ground (
  arith,
  int_beq_iff i uid,
  int_beq_iff u.uid uid,
  last_with-new uid old_map m before k.2,
  last_with-new uid old_map m (if int_beq u.uid uid then some u else before) k.2,
)

keyed-own : (m : UserMap) (i : ℤ) (v : UserInfo) → IsKeyed m → lookup i m ≡ some v → v.uid ≡ i
unfolding lookup
keyed-own [] i v k e = absurd (ground arith)
keyed-own ((j, u) ∷ m) i v k e = ground (arith, int_beq_iff j i, keyed-own m i v k.2)

-- The map after the change: the leavers removed, the others stored.
abbrev pub patched : List UserInfo × List UserInfo → UserMap → UserMap
patched (deleted, added) m = by_uid added (remove_all deleted m)

-- What a core knows a user by: the credentials and the email of its key.
abbrev pub identity : Option UserInfo → Option (Bytes × Bytes)
identity none = none
identity (some u) = some (u.uuid, u.email)

abbrev leaves_if : Option UserInfo → Option UserInfo → Bool
leaves_if none n = false
leaves_if (some u) n = leaves u n

-- What stays of an old entry, then what changed, then what is new.
settle :
    (o n : Option UserInfo)
    → identity (joined o n (entered o n (if leaves_if o n then none else o))) ≡ identity n
settle none none = refl
settle none (some v) = refl
settle (some u) none = refl
settle (some u) (some v) =
    ground (arith, bytes_beq_iff u.uuid v.uuid, bytes_beq_iff u.email v.email)

leaves_in-lookup :
    (new_map : UserMap) (uid : ℤ) (o : Option UserInfo)
    → leaves_in new_map uid o ≡ leaves_if o (lookup uid new_map)
leaves_in-lookup new_map uid none = refl
leaves_in-lookup new_map uid (some u) = refl

-- Removing the users that leave from the old list, and then adding those that enter, gives every
-- uid the credentials and the email that the new list gives it: no uid keeps old credentials, none
-- is lost, and none stays that the new list does not hold.
pub compare_user_list_patches :
    (old new : List UserInfo) (uid : ℤ)
    → identity (lookup uid (patched (compare_user_list old new) (by_uid old [])))
      ≡ identity (lookup uid (by_uid new []))
unfolding compare_user_list
compare_user_list_patches old new uid =
    let old_map = by_uid old [] in
    let new_map = by_uid new [] in
    let old_keyed = by_uid-IsKeyed old [] tt in
    let new_keyed = by_uid-IsKeyed new [] tt in
    let deleted = deleted_users new_map old_map in
    let changed = changed_users new_map old_map in
    let fresh = new_users old_map new_map in
    let base = remove_all deleted old_map in
    ground (
      arith,
      lookup-by_uid uid (changed ++ fresh) base,
      last_with-append uid changed fresh (lookup uid base),
      last_with-new uid old_map new_map (last_with uid changed (lookup uid base)) new_keyed,
      last_with-changed uid new_map old_map (lookup uid base) old_keyed
          (λ i v. keyed-own new_map i v new_keyed),
      lookup-remove_all uid deleted old_map,
      has_uid-deleted uid new_map old_map old_keyed,
      leaves_in-lookup new_map uid (lookup uid old_map),
      settle (lookup uid old_map) (lookup uid new_map),
    )
