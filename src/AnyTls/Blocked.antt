-- ===== src/AnyTls/Blocked.antt =====
-- What proxy/anytls/fallback.go lets a fallback connect to.
use xray_r4u.Base.{
  ℕ, ◌≡◌, ◌≢◌, ◌↔◌, ◌≤◌, refl, sym, Bool, true, false, Option, none, some, List, [], ◌∷◌, Bytes, ℤ,
  pos, negsuc, if◌then◌else◌, not, length, All, arith, inl, inr, Bool-cases, Option-cases,
}
use xray_r4u.Text.{is_empty, trim_space, split_host_port, atoi}
use xray_r4u.AnyTls.Fallback.{
  to4, is_link_local_unicast, is_blocked_fallback_ip, is_blocked_fallback_host, is_port, empty_host,
  invalid_port, blocked, is_blocked_literal, check_parts, validate_fallback_addr, first_blocked,
  check_host, resolve_and_check_fallback, check_answers,
}

abbrev IsAllowed : Bytes → Type 0
IsAllowed ip = is_blocked_fallback_ip ip ≡ false

-- All that a host may be dialled at is allowed, and there is something: the literal, or what the
-- lookup gave.
abbrev pub IsSafeHost : Option Bytes → Option (List Bytes) → Type 0
IsSafeHost (some ip) answers = IsAllowed ip
IsSafeHost none none = ⊥
IsSafeHost none (some ips) = (ips ≢ []) × All IsAllowed ips

-- An address of the form host:port with a host, a port of TCP, and a name that is not on the code's list.
pub record IsUsable (addr host port : Bytes) : Type 0 where
  pub parts : split_host_port (trim_space addr) ≡ some (host, port)
  pub has_host : is_empty host ≡ false
  pub port_fits : (n : ℕ) × ((atoi port ≡ some (pos n)) × ((1 ≤ n) × (n ≤ 65535)))
  pub no_metadata : is_blocked_fallback_host host ≡ false

blank_parts :
    {host port : Bytes} (s : Bytes) → is_empty s ≡ true → some (host, port) ≡ split_host_port s → ⊥
unfolding split_host_port
blank_parts [] e p = ground (arith, p)
blank_parts (c ∷ s) e p = ground arith

module _ (parse_ip : Bytes → Option Bytes) where
  first_blocked-All : (ips : List Bytes) → (first_blocked parse_ip ips ≡ none) ↔ All IsAllowed ips
  first_blocked-All [] = (λ _. tt, λ _. refl)
  first_blocked-All (ip ∷ ips) = elim (Bool-cases (is_blocked_fallback_ip ip)) [
    | inl bad ↦ rw bad (λ e. absurd (ground arith), λ w. absurd (ground (arith, w.0)))
    | inr good ↦
        rw good (λ e. (refl, (first_blocked-All ips).0 e), λ w. (first_blocked-All ips).1 w.1)
  ]

  is_port-fits :
      (o : Option ℤ) → is_port o ≡ true → (n : ℕ) × ((o ≡ some (pos n)) × ((1 ≤ n) × (n ≤ 65535)))
  is_port-fits none e = absurd (ground arith)
  is_port-fits (some (negsuc n)) e = absurd (ground arith)
  is_port-fits (some (pos n)) e = (n, (refl, (ground arith, ground arith)))

  guards_passed :
      (no_host port_ok named literal : Bool)
      → (if no_host
          then some empty_host
          else if not port_ok
          then some invalid_port
          else if named
          then some blocked
          else if literal
          then some blocked
          else none)
        ≡ none
      → (no_host ≡ false) × ((port_ok ≡ true) × (named ≡ false))
  guards_passed true p n l e = absurd (ground arith)
  guards_passed false false n l e = absurd (ground arith)
  guards_passed false true true l e = absurd (ground arith)
  guards_passed false true false l e = (refl, (refl, refl))

  check_parts-IsUsable :
      (addr host port : Bytes)
      → split_host_port (trim_space addr) ≡ some (host, port)
      → check_parts parse_ip host port ≡ none
      → IsUsable addr host port
  check_parts-IsUsable addr host port s e =
      let passed =
        guards_passed (is_empty host) (is_port (atoi port)) (is_blocked_fallback_host host)
          (is_blocked_literal parse_ip host) e in
      record {
        parts = s;
        has_host = passed.0;
        port_fits = is_port-fits (atoi port) passed.1.0;
        no_metadata = passed.1.1;
      }

  module _ (lookup_ip : Bytes → Option (List Bytes)) where
    check_answers-IsSafeHost :
        (o : Option (List Bytes)) → check_answers parse_ip lookup_ip o ≡ none → IsSafeHost none o
    check_answers-IsSafeHost none e = absurd (ground arith)
    check_answers-IsSafeHost (some []) e = absurd (ground arith)
    check_answers-IsSafeHost (some (ip ∷ ips)) e =
        (λ q. absurd (ground (arith, q)), (first_blocked-All (ip ∷ ips)).0 e)

    check_host-IsSafeHost :
        (host : Bytes)
        → check_host parse_ip lookup_ip host ≡ none
        → IsSafeHost (parse_ip host) (lookup_ip host)
    check_host-IsSafeHost host e = elim (Option-cases (parse_ip host)) [
      | inl n ↦ rw n (check_answers-IsSafeHost (lookup_ip host) (rw (n, check_host) at e))
      | inr (ip, q) ↦ elim (Bool-cases (is_blocked_fallback_ip ip)) [
        | inl bad ↦ absurd (ground (arith, q, bad, rw (q, check_host, bad) at e))
        | inr good ↦ rw q good
      ]
    ]

    checked_host :
        (addr host port : Bytes)
        → resolve_and_check_fallback parse_ip lookup_ip addr ≡ none
        → split_host_port (trim_space addr) ≡ some (host, port)
        → (validate_fallback_addr parse_ip addr ≡ none)
          × (check_host parse_ip lookup_ip host ≡ none)
    unfolding resolve_and_check_fallback
    checked_host addr host port e parts =
        elim (Option-cases (validate_fallback_addr parse_ip addr)) [
          | inr (err, bad) ↦ absurd (ground (arith, bad, e))
          | inl valid ↦ (valid, ground (arith, valid, parts, e))
        ]

    valid_parts :
        (addr host port : Bytes)
        → validate_fallback_addr parse_ip addr ≡ none
        → is_empty (trim_space addr) ≡ false
        → split_host_port (trim_space addr) ≡ some (host, port)
        → check_parts parse_ip host port ≡ none
    unfolding validate_fallback_addr
    valid_parts addr host port v text parts = ground (arith, v, text, parts)

    -- What passes the check before a connection to the fallback is made: an address of spaces alone
    -- never does, and any other does only if it is a host and a port, its name is none that
    -- the code blocks, and is_blocked_fallback_ip blocks no address that the check found for it.
    pub resolve_and_check_fallback-IsSafeHost :
        (addr : Bytes)
        → resolve_and_check_fallback parse_ip lookup_ip addr ≡ none
        → (host : Bytes) × ((port : Bytes) × (IsUsable addr host port
              × IsSafeHost (parse_ip host) (lookup_ip host)))
    unfolding resolve_and_check_fallback validate_fallback_addr
    resolve_and_check_fallback-IsSafeHost addr e =
        elim (Option-cases (split_host_port (trim_space addr))) [
          | inl bad ↦ absurd (ground (arith, bad))
          | inr ((host, port), parts) ↦ elim (Bool-cases (is_empty (trim_space addr))) [
            | inl blank ↦ absurd (blank_parts (trim_space addr) blank (sym parts))
            | inr text ↦
                let checked = checked_host addr host port e parts in
                let usable = valid_parts addr host port checked.0 text parts in
                (
                  host,
                  (
                    port,
                    (
                      check_parts-IsUsable addr host port parts usable,
                      check_host-IsSafeHost host checked.1,
                    ),
                  ),
                )
          ]
        ]

-- No address of fd00:ec2::/32, as is AWS's metadata service for IPv6, fd00:ec2::254, is blocked: its
-- bytes are fd 00 0e c2, while the code compares with fd 00 ec 02, which is fd00:ec02::/32.
pub is_blocked_fallback_ip_misses :
    (rest : Bytes) → length rest ≡ 12 → is_blocked_fallback_ip (253 ∷ 0 ∷ 14 ∷ 194 ∷ rest) ≡ false
unfolding is_blocked_fallback_ip is_link_local_unicast to4
is_blocked_fallback_ip_misses rest e = ground (arith, e)
