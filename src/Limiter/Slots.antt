-- ===== src/Limiter/Slots.antt =====
-- The references and the slots of one tracker over `tryAdd` and `remove` of
-- common/limiter/limiter.go.
use xray_r4u.Base.{
  ℕ, suc, ◌+◌, ◌-◌, ◌≤◌, ◌<◌, ◌^◌, ◌≡◌, Bool, true, false, none, some, Bytes, ℤ, pos, int32_of_fits,
  if◌then◌else◌, length, bytes_eq, bytes_beq, bytes_beq_iff, arith, inl, inr, Option-cases,
  Bool-cases, leb, int_beq,
}
use xray_r4u.GoMap.{
  IsMap, lookup, insert, lookup-insert, lookup-delete, insert-IsMap, delete-IsMap,
  length-insert_new, length-insert_old, length-delete-le,
}
use xray_r4u.Limiter.Online.{IpEntry, OnlineState, is_full, try_add, remove, refs, no_devices}

-- One, where the test holds.
abbrev pub bump : Bool → ℕ
bump true = 1
bump false = 0

-- An admission adds one reference to its address and touches no other; a refusal changes nothing.
pub try_add-refs :
    (s : OnlineState) (ip other : Bytes) (uid limit : ℤ)
    → refs other (try_add s ip uid limit).1
      ≡ refs other s + (if (try_add s ip uid limit).0 then bump (bytes_beq ip other) else 0)
unfolding try_add
try_add-refs s ip other uid limit = elim (Option-cases (lookup ip s.ips)) [
  | inl e ↦
      ground (
        arith,
        bytes_beq_iff ip other,
        lookup-insert ip other (record { uid = uid; refs = 1 }) s.ips,
      )
  | inr (v, e) ↦ ground (
    arith,
    bytes_beq_iff ip other,
    lookup-insert ip other
        (record { uid = if int_beq v.uid (pos 0) then uid else v.uid; refs = suc v.refs }) s.ips,
  )
]

-- A release takes one reference from its address, if it holds any.
pub remove-refs :
    (s : OnlineState) (ip other : Bytes)
    → refs other (remove s ip) ≡ refs other s - bump (bytes_beq ip other)
unfolding remove
remove-refs s ip other = elim (Option-cases (lookup ip s.ips)) [
  | inl e ↦ ground (arith, bytes_beq_iff ip other)
  | inr (v, e) ↦ ground (
    arith,
    bytes_beq_iff ip other,
    lookup-delete ip other s.ips,
    lookup-insert ip other (record v { refs = v.refs - 1 }) s.ips,
  )
]

-- What the tracker's maps always satisfy: no address twice, and no address without a connection.
pub record IsTracker (s : OnlineState) : Type 0 where
  pub unique : IsMap s.ips
  pub in_use : (ip : Bytes) (e : IpEntry) → lookup ip s.ips ≡ some e → 0 < e.refs

pub no_devices-IsTracker : IsTracker no_devices
unfolding lookup
no_devices-IsTracker = record { unique = tt; in_use = λ ip e h. cc }

insert-in_use :
    (s : OnlineState) (ip : Bytes) (v : IpEntry)
    → IsTracker s
    → 0 < v.refs
    → IsTracker (record { ips = insert ip v s.ips })
insert-in_use s ip v t h = record {
  unique = insert-IsMap ip v s.ips t.unique;
  in_use = λ j e found. ground (arith, lookup-insert ip j v s.ips, t.in_use j e);
}

pub try_add-IsTracker :
    (s : OnlineState) (ip : Bytes) (uid limit : ℤ)
    → IsTracker s
    → IsTracker (try_add s ip uid limit).1
unfolding try_add
try_add-IsTracker s ip uid limit t = elim (Option-cases (lookup ip s.ips)) [
  | inl e ↦ elim (Bool-cases (is_full s limit)) [
    | inl full ↦ rw (e, try_add, full) t
    | inr free ↦ rw (e, try_add, free) (insert-in_use s ip _ t (omega arith))
  ]
  | inr (v, e) ↦ rw (e, try_add) (insert-in_use s ip _ t (omega arith))
]

pub remove-IsTracker : (s : OnlineState) (ip : Bytes) → IsTracker s → IsTracker (remove s ip)
unfolding remove
remove-IsTracker s ip t = elim (Option-cases (lookup ip s.ips)) [
  | inl e ↦ rw (e, remove) t
  | inr (v, e) ↦ elim (Bool-cases (leb (v.refs - 1) 0)) [
    | inl last ↦
        rw (e, remove, last)
          (record {
            unique = delete-IsMap ip s.ips t.unique;
            in_use = λ j w found. ground (arith, lookup-delete ip j s.ips, t.in_use j w);
          })
    | inr more ↦ rw (e, remove, more) (insert-in_use s ip _ t (ground arith))
  ]
]

-- With a limit set, an admission never takes the number of devices above it.
pub try_add_bounded :
    (s : OnlineState) (ip : Bytes) (uid : ℤ) (n : ℕ)
    → 0 < n
    → n < 2 ^ 31
    → length s.ips ≤ n
    → length (try_add s ip uid (pos n)).1.ips ≤ n
unfolding try_add
try_add_bounded s ip uid n p w h = elim (Option-cases (lookup ip s.ips)) [
  | inl e ↦ ground (
    arith,
    int32_of_fits (length s.ips),
    length-insert_new ip (record { uid = uid; refs = 1 }) s.ips e,
  )
  | inr (v, e) ↦ ground (
    arith,
    length-insert_old ip
        (record { uid = if int_beq v.uid (pos 0) then uid else v.uid; refs = suc v.refs }) v s.ips
        e,
  )
]

pub remove_bounded : (s : OnlineState) (ip : Bytes) → length (remove s ip).ips ≤ length s.ips
unfolding remove
remove_bounded s ip = elim (Option-cases (lookup ip s.ips)) [
  | inl e ↦ rw (e, remove) (omega arith)
  | inr (v, e) ↦ ground (
    arith,
    length-delete-le ip s.ips,
    length-insert_old ip (record v { refs = v.refs - 1 }) v s.ips e,
  )
]

-- A tracked address holds a reference, and the other way round.
pub refs-pos : (s : OnlineState) (ip : Bytes) → IsTracker s → refs ip s ≡ 0 → lookup ip s.ips ≡ none
refs-pos s ip t h = elim (Option-cases (lookup ip s.ips)) [
  | inl e ↦ e
  | inr (v, e) ↦ absurd (ground (arith, t.in_use ip v e))
]
