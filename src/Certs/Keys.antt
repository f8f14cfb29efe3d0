-- ===== src/Certs/Keys.antt =====
-- `allowedDNSEnvKey` of common/legocmd/lego.go: which variables the configuration of a DNS provider
-- may set. Case folding is that of ASCII: another letter makes the key refused in the end.
use xray_r4u.Base.{
  ℕ, Bool, true, false, List, [], ◌∷◌, Bytes, bytes_beq, if◌then◌else◌, ◌&&◌, ◌||◌, codes, leb, ltb,
  nat_beq, length, ◌-◌, map,
}
use xray_r4u.Text.{is_empty, has_prefix}

abbrev pub blocked_env_keys : List Bytes
blocked_env_keys =
    codes "PATH"
    ∷ codes "HOME"
    ∷ codes "USER"
    ∷ codes "LOGNAME"
    ∷ codes "SHELL"
    ∷ codes "LD_PRELOAD"
    ∷ codes "LD_LIBRARY_PATH"
    ∷ codes "DYLD_INSERT_LIBRARIES"
    ∷ codes "HTTP_PROXY"
    ∷ codes "HTTPS_PROXY"
    ∷ codes "ALL_PROXY"
    ∷ codes "NO_PROXY"
    ∷ codes "http_proxy"
    ∷ codes "https_proxy"
    ∷ codes "all_proxy"
    ∷ codes "no_proxy"
    ∷ codes "GOPATH"
    ∷ codes "GOROOT"
    ∷ codes "TMPDIR"
    ∷ codes "TEMP"
    ∷ codes "TMP"
    ∷ []

abbrev pub is_listed : Bytes → List Bytes → Bool
is_listed key [] = false
is_listed key (name ∷ names) = bytes_beq name key || is_listed key names

-- `strings.ToUpper`, on ASCII.
abbrev pub upper : ℕ → ℕ
upper c = if leb b'a' c && leb c b'z' then c - 32 else c

abbrev pub to_upper : Bytes → Bytes
to_upper = map upper

-- `strings.ContainsAny(key, "=\x00\n\r")`
abbrev pub has_separator : Bytes → Bool
has_separator [] = false
has_separator (c ∷ s) =
    (nat_beq c b'=' || (nat_beq c 0 || (nat_beq c 10 || nat_beq c 13))) || has_separator s

abbrev pub is_word : ℕ → Bool
is_word c =
    (leb b'A' c && leb c b'Z')
    || ((leb b'a' c && leb c b'z') || ((leb b'0' c && leb c b'9') || nat_beq c b'_'))

abbrev pub all_word : Bytes → Bool
all_word [] = true
all_word (c ∷ s) = is_word c && all_word s

-- A name of the process itself, in any case.
abbrev pub is_reserved : Bytes → Bool
is_reserved name =
    (bytes_beq name (codes "PATH")
      || (bytes_beq name (codes "HOME")
          || (bytes_beq name (codes "USER") || bytes_beq name (codes "SHELL"))))
    || (has_prefix name (codes "LD_") || has_prefix name (codes "DYLD_"))

unfoldable pub allowed_dns_env_key : Bytes → Bool
unfolding has_prefix
allowed_dns_env_key key =
    if is_empty key || has_separator key
    then false
    else if is_listed key blocked_env_keys
    then false
    else if is_reserved (to_upper key)
    then false
    else if has_prefix (to_upper key) (codes "LEGO_")
    then true
    else if ltb 128 (length key)
    then false
    else all_word key
