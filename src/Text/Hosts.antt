-- ===== src/Text/Hosts.antt =====
-- `net.SplitHostPort` and `net.JoinHostPort`.
use xray_r4u.Base.{
  ℕ, ◌≡◌, refl, Bool, true, false, Option, none, some, [], ◌∷◌, ◌++◌, Bytes, if◌then◌else◌, nat_beq,
  ◌||◌, arith, ap, Bool-cases, inl, inr, ◌∙◌,
}
use mathlib.Core.List.{append_assoc}

unfoldable pub contains : ℕ → Bytes → Bool
contains c [] = false
contains c (x ∷ s) = nat_beq x c || contains c s

abbrev extend_or : ℕ → ℕ → Bytes → Option (Bytes × Bytes) → Option (Bytes × Bytes)
extend_or c x s none = if nat_beq x c then some ([], s) else none
extend_or c x s (some (a, b)) = some (x ∷ a, b)

-- What stands before and behind the last occurrence of a byte.
unfoldable pub split_last : ℕ → Bytes → Option (Bytes × Bytes)
split_last c [] = none
split_last c (x ∷ s) = extend_or c x s (split_last c s)

abbrev push : ℕ → Option Bytes → Option Bytes
push c none = none
push c (some s) = some (c ∷ s)

abbrev ends : Bytes → Option Bytes
ends [] = some []
ends (_ ∷ _) = none

-- The text up to a `]` that is its last byte and its only one.
unfoldable pub unbracket : Bytes → Option Bytes
unbracket [] = none
unbracket (c ∷ s) = let rest = unbracket s in if nat_beq c b']' then ends s else push c rest

abbrev check_brackets : Bytes → Bytes → Option (Bytes × Bytes)
check_brackets host port =
    if contains b'[' host || (contains b'[' port || contains b']' port)
    then none
    else some (host, port)

abbrev plain_host : Bytes → Bytes → Option (Bytes × Bytes)
plain_host host port =
    if contains b':' host || contains b']' host then none else check_brackets host port

abbrev or_missing : Option Bytes → Bytes → Option (Bytes × Bytes)
or_missing none port = none
or_missing (some host) port = check_brackets host port

abbrev host_part : Bytes → Bytes → Option (Bytes × Bytes)
host_part [] port = plain_host [] port
host_part (c ∷ s) port =
    if nat_beq c b'[' then or_missing (unbracket s) port else plain_host (c ∷ s) port

abbrev or_error : Option (Bytes × Bytes) → Option (Bytes × Bytes)
or_error none = none
or_error (some (host, port)) = host_part host port

-- `none` is its error.
unfoldable pub split_host_port : Bytes → Option (Bytes × Bytes)
unfolding split_last contains unbracket
split_host_port s = or_error (split_last b':' s)

unfoldable pub join_host_port : Bytes → Bytes → Bytes
unfolding contains
join_host_port host port =
    if contains b':' host then b'[' ∷ (host ++ (b']' ∷ b':' ∷ port)) else host ++ (b':' ∷ port)

-- Neither bracket.
abbrev pub IsBracketFree : Bytes → Type 0
IsBracketFree s = (contains b'[' s ≡ false) × (contains b']' s ≡ false)

split_last_absent : (c : ℕ) (s : Bytes) → contains c s ≡ false → split_last c s ≡ none
unfolding split_last contains
split_last_absent c [] h = refl
split_last_absent c (x ∷ s) h = ground (arith, split_last_absent c s)

split_last-append :
    (c : ℕ) (host port : Bytes)
    → contains c port ≡ false
    → split_last c (host ++ c ∷ port) ≡ some (host, port)
unfolding split_last contains
split_last-append c [] port h = ground (arith, split_last_absent c port h)
split_last-append c (x ∷ host) port h = rw (split_last-append c host port h)

unbracket-append : (s : Bytes) → contains b']' s ≡ false → unbracket (s ++ b']' ∷ []) ≡ some s
unfolding unbracket contains
unbracket-append [] h = refl
unbracket-append (c ∷ s) h = ground (arith, unbracket-append s)

host_part_plain :
    (host port : Bytes)
    → contains b':' host ≡ false
    → IsBracketFree host
    → IsBracketFree port
    → host_part host port ≡ some (host, port)
unfolding contains
host_part_plain [] port n h p = ground arith
host_part_plain (c ∷ host) port n h p = ground arith

host_part_bracketed :
    (host port : Bytes)
    → IsBracketFree host
    → IsBracketFree port
    → host_part (b'[' ∷ (host ++ b']' ∷ [])) port ≡ some (host, port)
host_part_bracketed host port h p = rw (unbracket-append host h.1) (ground arith)

split_host_port_at :
    (host port : Bytes)
    → contains b':' port ≡ false
    → split_host_port (host ++ b':' ∷ port) ≡ host_part host port
unfolding split_host_port
split_host_port_at host port n = ap or_error (split_last-append b':' host port n)

join_plain :
    (host port : Bytes)
    → contains b':' host ≡ false
    → join_host_port host port ≡ host ++ b':' ∷ port
unfolding join_host_port
join_plain host port h = ground arith

join_bracketed :
    (host port : Bytes)
    → contains b':' host ≡ true
    → join_host_port host port ≡ (b'[' ∷ (host ++ b']' ∷ [])) ++ b':' ∷ port
unfolding join_host_port
join_bracketed host port h = ground (arith, append_assoc host (b']' ∷ []) (b':' ∷ port))

-- Joined and split again: any host without brackets, an IPv6 address among them, and any port
-- without colon and brackets.
pub split_host_port-join_host_port :
    (host port : Bytes)
    → IsBracketFree host
    → IsBracketFree port
    → contains b':' port ≡ false
    → split_host_port (join_host_port host port) ≡ some (host, port)
split_host_port-join_host_port host port h p n = elim (Bool-cases (contains b':' host)) [
  | inl six ↦
      rw (join_bracketed host port six)
        (split_host_port_at (b'[' ∷ (host ++ b']' ∷ [])) port n ∙ host_part_bracketed host port h p)
  | inr plain ↦
      rw (join_plain host port plain)
        (split_host_port_at host port n ∙ host_part_plain host port plain h p)
]
