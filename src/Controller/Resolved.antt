-- ===== src/Controller/Resolved.antt =====
-- What the choice between local configuration and panel data can end in:
-- service/controller/stream_resolve.go and inboundbuilder.go.
use xray_r4u.Base.{
  ◌≡◌, Bool, true, false, some, [], ◌∷◌, Bytes, bytes_beq_iff, if◌then◌else◌, codes, nat_beq, arith,
  ◌⊎◌,
}
use xray_r4u.Text.{trim_space, trim_space-nil, is_empty, to_lower}
use xray_r4u.Api.{NodeInfo}
use xray_r4u.Controller.Stream.{
  Config, RealityKnobs, normalize_security_type, resolve_security, xhttp_path,
  apply_reality_local_overrides, default_reality_min_client_ver,
}

-- The security of a node is none, TLS or REALITY, whatever words the file and the panel use.
pub resolve_security_lem :
    (config : Config) (info : NodeInfo)
    → (resolve_security config info ≡ [])
      ⊎ (resolve_security config info ≡ codes "tls")
      ⊎ (resolve_security config info ≡ codes "reality")
unfolding resolve_security normalize_security_type
resolve_security_lem config info = ground (
  arith,
  bytes_beq_iff (to_lower info.tls_type) (codes "tls"),
  bytes_beq_iff (to_lower info.tls_type) (codes "reality"),
  bytes_beq_iff (to_lower (trim_space config.security)) (codes "tls"),
  bytes_beq_iff (to_lower (trim_space config.security)) (codes "reality"),
)

abbrev pub starts_with_slash : Bytes → Bool
starts_with_slash [] = false
starts_with_slash (c ∷ s) = nat_beq c b'/'

-- An XHTTP path that is accepted starts with a slash, and is accepted again as it is.
pub xhttp_path_lem :
    (path p : Bytes)
    → xhttp_path path ≡ some p
    → (starts_with_slash p ≡ true) × (xhttp_path p ≡ some p)
unfolding xhttp_path
xhttp_path_lem [] p h = absurd (ground arith)
xhttp_path_lem (c ∷ path) p h = ground arith

panel_min_client_ver :
    (v : Bytes)
    → is_empty (if is_empty (trim_space v) then default_reality_min_client_ver else v) ≡ false
panel_min_client_ver [] = ground (arith, trim_space-nil)
panel_min_client_ver (c ∷ v) = ground arith

-- A REALITY inbound always demands some client version, whatever the file and the panel leave empty.
pub min_client_ver_nonempty :
    (config : Config) (knobs : RealityKnobs)
    → is_empty (apply_reality_local_overrides config knobs).min_client_ver ≡ false
unfolding apply_reality_local_overrides
min_client_ver_nonempty config knobs = ground (arith, panel_min_client_ver knobs.min_client_ver)
