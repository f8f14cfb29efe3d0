-- ===== src/Controller/Builder/Paths.antt =====
-- The XHTTP settings that service/controller/stream_resolve.go has built.
use xray_r4u.Base.{
  ◌≡◌, refl, true, false, Option, some, [], ◌∷◌, Bytes, codes, nat_beq, arith, inl, inr, Bool-cases,
  Option-cases,
}
use xray_r4u.Text.{is_empty, trim_space, has_prefix}
use xray_r4u.Api.{NodeInfo}
use xray_r4u.Controller.Stream.{
  Config, XhttpProfile, resolve_xhttp_host_path_mode, xhttp_path, or_else,
}
use xray_r4u.Controller.Builder.Settings.{
  BuilderConfig, XhttpMore, SplitHttp, no_xhttp_path, bad_xhttp_extra, ok, or_fail,
}
use xray_r4u.Controller.Builder.Steps.{then_build-ok, or_fail-ok, ok-injective}
use xray_r4u.Controller.Builder.Xhttp.{overlay, with_more, first_settings, build_xhttp_settings}

xhttp_path-rooted :
    (path rooted : Bytes) → xhttp_path path ≡ some rooted → has_prefix rooted (codes "/") ≡ true
unfolding xhttp_path has_prefix
xhttp_path-rooted [] rooted e = absurd (ground arith)
xhttp_path-rooted (c ∷ path) rooted e = elim (Bool-cases (nat_beq c b'/')) [
  | inl m ↦ ground (arith, m, rw (m, xhttp_path) at e)
  | inr m ↦ ground (arith, m, rw (m, xhttp_path) at e)
]

or_else-full : (v w : Bytes) → is_empty w ≡ false → is_empty (or_else v w) ≡ false
or_else-full [] w e = e
or_else-full (c ∷ v) w e = refl

resolved_mode :
    (config : Config) (node_info : NodeInfo)
    → is_empty (resolve_xhttp_host_path_mode config node_info).mode ≡ false
unfolding resolve_xhttp_host_path_mode
resolved_mode config node_info = elim (Option-cases config.xhttp) [
  | inl e ↦ rw e refl
  | inr (x, e) ↦ rw e (or_else-full (trim_space x.mode) (codes "auto") refl)
]

module _ (E : Type 0) (no_others : E) (parse_extra : Bytes → Option (SplitHttp E)) where
  -- The profile's host and mode, and a path from the root.
  pub record IsProfiled (profile : XhttpProfile) (rooted : Bytes) (s : SplitHttp E) : Type 0 where
    pub host : s.host ≡ profile.host
    pub mode : s.mode ≡ profile.mode
    pub path : s.path ≡ rooted

  with_more-IsProfiled :
      (more : XhttpMore) (profile : XhttpProfile) (path : Bytes) (s : SplitHttp E)
      → is_empty profile.mode ≡ false
      → with_more E no_others parse_extra more (first_settings E no_others parse_extra profile path)
        ≡ ok s
      → IsProfiled profile path s
  with_more-IsProfiled more profile path s full e =
      let first = first_settings E no_others parse_extra profile path in
      let own : SplitHttp E = record first {
        headers = more.headers;
        no_sse_header = more.no_sse_header;
        no_grpc_header = more.no_grpc_header;
      } in
      let parsed = or_fail bad_xhttp_extra (parse_extra (trim_space more.extra)) in
      elim (Bool-cases (is_empty (trim_space more.extra))) [
        | inl m ↦
            rw (← ok-injective (rw (with_more, m) at e))
              (record { host = refl; mode = refl; path = refl })
        | inr m ↦
            let merged =
              then_build-ok parsed (λ o. ok (overlay E no_others parse_extra more own o)) s
                (rw (with_more, m) at e) in
            rw (← ok-injective merged.1.1)
              (record { host = refl; mode = rw full refl; path = refl })
      ]

  -- XHTTP settings that are built have the host, path and mode of the configuration or else of the
  -- panel, whatever `Extra` says of them, and a path that begins with a slash.
  pub build_xhttp_settings-IsProfiled :
      (config : BuilderConfig) (node_info : NodeInfo) (s : SplitHttp E)
      → build_xhttp_settings E no_others parse_extra config node_info ≡ ok s
      → let profile = resolve_xhttp_host_path_mode config.local node_info in
        (rooted : Bytes) × ((xhttp_path profile.path ≡ some rooted)
          × ((has_prefix rooted (codes "/") ≡ true) × IsProfiled profile rooted s))
  unfolding build_xhttp_settings
  build_xhttp_settings-IsProfiled config node_info s e =
      let profile = resolve_xhttp_host_path_mode config.local node_info in
      let pathed = or_fail no_xhttp_path (xhttp_path profile.path) in
      let built = then_build-ok pathed _ s e in
      let found = or_fail-ok no_xhttp_path (xhttp_path profile.path) built.0 built.1.0 in
      (
        built.0,
        (
          found,
          (
            xhttp_path-rooted profile.path built.0 found,
            elim (Option-cases config.local.xhttp) [
              | inl n ↦
                  rw (← ok-injective (rw n at built.1.1))
                    (record { host = refl; mode = refl; path = refl })
              | inr (x, q) ↦
                  with_more-IsProfiled config.xhttp_more profile built.0 s
                    (resolved_mode config.local node_info) (rw q at built.1.1)
            ],
          ),
        ),
      )
