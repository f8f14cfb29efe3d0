-- ===== src/AnyTls/Fallback.antt =====
-- proxy/anytls/fallback.go: which address the fallback of an AnyTLS inbound may have. `net.ParseIP`
-- and `net.LookupIP` are arguments; `none` is nil, and an error.
use xray_r4u.Base.{
  ℕ, Bool, false, Option, none, some, List, [], ◌∷◌, Bytes, bytes_beq, ℤ, pos, negsuc,
  if◌then◌else◌, ◌&&◌, ◌||◌, not, codes, leb, ltb, nat_beq, length, take, zero, suc,
}
use xray_r4u.Text.{is_empty, to_lower, trim_space, split_host_port, atoi}

-- `strings.HasSuffix`
unfoldable pub has_suffix : Bytes → Bytes → Bool
has_suffix [] end = is_empty end
has_suffix (c ∷ s) end = bytes_beq (c ∷ s) end || has_suffix s end

abbrev pub drop : ℕ → Bytes → Bytes
drop zero s = s
drop (suc n) [] = []
drop (suc n) (c ∷ s) = drop n s

-- `ip[n]`, read only below the length.
abbrev pub byte_at : ℕ → Bytes → ℕ
byte_at zero [] = 0
byte_at zero (c ∷ s) = c
byte_at (suc n) [] = 0
byte_at (suc n) (c ∷ s) = byte_at n s

-- What an IPv4 address in IPv6 form starts with.
abbrev pub v4_prefix : Bytes
v4_prefix = 0 ∷ 0 ∷ 0 ∷ 0 ∷ 0 ∷ 0 ∷ 0 ∷ 0 ∷ 0 ∷ 0 ∷ 255 ∷ 255 ∷ []

-- `net.IP.To4`
unfoldable pub to4 : Bytes → Option Bytes
to4 ip =
    if nat_beq (length ip) 4
    then some ip
    else if nat_beq (length ip) 16 && bytes_beq (take 12 ip) v4_prefix
    then some (drop 12 ip)
    else none

abbrev pub is_link_local_v4 : Bytes → Bool
is_link_local_v4 ip = nat_beq (byte_at 0 ip) 169 && nat_beq (byte_at 1 ip) 254

-- `net.IP.IsLinkLocalUnicast`
unfoldable pub is_link_local_unicast : Bytes → Bool
unfolding to4
is_link_local_unicast ip = elim (to4 ip) [
  | some v4 ↦ is_link_local_v4 v4
  | none ↦
      nat_beq (length ip) 16
      && (nat_beq (byte_at 0 ip) 254 && (leb 128 (byte_at 1 ip) && ltb (byte_at 1 ip) 192))
]

abbrev pub is_alibaba : Bytes → Bool
is_alibaba ip =
    nat_beq (byte_at 0 ip) 100
    && (nat_beq (byte_at 1 ip) 100 && (nat_beq (byte_at 2 ip) 100 && nat_beq (byte_at 3 ip) 200))

-- 0xfd, 0x00, 0xec, 0x02.
abbrev pub is_fd00_ec02 : Bytes → Bool
is_fd00_ec02 ip =
    nat_beq (byte_at 0 ip) 253
    && (nat_beq (byte_at 1 ip) 0 && (nat_beq (byte_at 2 ip) 236 && nat_beq (byte_at 3 ip) 2))

unfoldable pub is_blocked_fallback_ip : Bytes → Bool
unfolding is_link_local_unicast
is_blocked_fallback_ip ip = elim (to4 ip) [
  | some v4 ↦ is_link_local_v4 v4 || is_alibaba v4
  | none ↦ is_link_local_unicast ip || nat_beq (length ip) 16 && is_fd00_ec02 ip
]

abbrev pub metadata_names : List Bytes
metadata_names =
    codes "metadata"
    ∷ codes "metadata.google.internal"
    ∷ codes "metadata.goog"
    ∷ codes "instance-data"
    ∷ codes "instance-data.ec2.internal"
    ∷ []

abbrev pub is_one_of : Bytes → List Bytes → Bool
is_one_of h [] = false
is_one_of h (name ∷ names) = bytes_beq h name || is_one_of h names

unfoldable pub is_blocked_fallback_host : Bytes → Bool
unfolding trim_space has_suffix
is_blocked_fallback_host host =
    let h = to_lower (trim_space host) in
    is_one_of h metadata_names
    || (has_suffix h (codes ".metadata.google.internal") || has_suffix h (codes ".metadata.goog"))

pub data FallbackError : Type 0 where
  not_host_port : FallbackError
  empty_host : FallbackError
  invalid_port : FallbackError
  blocked : FallbackError
  resolve_failed : FallbackError
  no_addresses : FallbackError

abbrev pub is_port : Option ℤ → Bool
is_port none = false
is_port (some (negsuc n)) = false
is_port (some (pos n)) = leb 1 n && leb n 65535

module _ (parse_ip : Bytes → Option Bytes) where
  abbrev pub is_blocked_literal : Bytes → Bool
  is_blocked_literal host = elim (parse_ip host) [
    | none ↦ false
    | some ip ↦ is_blocked_fallback_ip ip
  ]

  abbrev pub check_parts : Bytes → Bytes → Option FallbackError
  check_parts host port =
      if is_empty host
      then some empty_host
      else if not (is_port (atoi port))
      then some invalid_port
      else if is_blocked_fallback_host host
      then some blocked
      else if is_blocked_literal host
      then some blocked
      else none

  -- `none` is a nil error. An address of nothing but spaces is one.
  unfoldable pub validate_fallback_addr : Bytes → Option FallbackError
  unfolding trim_space split_host_port
  validate_fallback_addr text =
      let addr = trim_space text in
      if is_empty addr then none else elim (split_host_port addr) [
        | none ↦ some not_host_port
        | some (host, port) ↦ check_parts host port
      ]

  abbrev pub first_blocked : List Bytes → Option FallbackError
  first_blocked [] = none
  first_blocked (ip ∷ ips) = if is_blocked_fallback_ip ip then some blocked else first_blocked ips

  module _ (lookup_ip : Bytes → Option (List Bytes)) where
    abbrev pub check_answers : Option (List Bytes) → Option FallbackError
    check_answers none = some resolve_failed
    check_answers (some []) = some no_addresses
    check_answers (some (ip ∷ ips)) = first_blocked (ip ∷ ips)

    abbrev pub check_host : Bytes → Option FallbackError
    check_host host = elim (parse_ip host) [
      | some ip ↦ if is_blocked_fallback_ip ip then some blocked else none
      | none ↦ check_answers (lookup_ip host)
    ]

    unfoldable pub resolve_and_check_fallback : Bytes → Option FallbackError
    unfolding validate_fallback_addr
    resolve_and_check_fallback addr = elim (validate_fallback_addr addr) [
      | some err ↦ some err
      | none ↦ elim (split_host_port (trim_space addr)) [
        | none ↦ some not_host_port
        | some (host, port) ↦ check_host host
      ]
    ]
