-- ===== src/Controller/Builder/Xhttp.antt =====
-- `buildXHTTPSettings` (service/controller/stream_resolve.go). The decoding of `XHTTP.Extra` is an
-- argument; `none` is its error.
use xray_r4u.Base.{false, Option, none, some, List, [], ◌∷◌, Bytes, if◌then◌else◌, ◌||◌}
use xray_r4u.Text.{is_empty, trim_space}
use xray_r4u.Api.{NodeInfo}
use xray_r4u.Controller.Stream.{XhttpProfile, resolve_xhttp_host_path_mode, xhttp_path}
use xray_r4u.Controller.Builder.Settings.{
  BuilderConfig, XhttpMore, SplitHttp, no_xhttp_path, bad_xhttp_extra, Result, ok, then_build,
  or_fail,
}

abbrev pub or_theirs : List (Bytes × Bytes) → List (Bytes × Bytes) → List (Bytes × Bytes)
or_theirs [] theirs = theirs
or_theirs (h ∷ hs) theirs = h ∷ hs

module _ (E : Type 0) (no_others : E) (parse_extra : Bytes → Option (SplitHttp E)) where
  -- The decoded `Extra` under the fields that the configuration sets.
  abbrev pub overlay : XhttpMore → SplitHttp E → SplitHttp E → SplitHttp E
  overlay more settings extra = record extra {
    host = settings.host;
    path = settings.path;
    mode = if is_empty settings.mode then extra.mode else settings.mode;
    headers = or_theirs settings.headers extra.headers;
    no_sse_header = more.no_sse_header || extra.no_sse_header;
    no_grpc_header = more.no_grpc_header || extra.no_grpc_header;
  }

  abbrev pub with_more : XhttpMore → SplitHttp E → Result (SplitHttp E)
  with_more more settings =
      let extra = trim_space more.extra in
      let own : SplitHttp E = record settings {
        headers = more.headers;
        no_sse_header = more.no_sse_header;
        no_grpc_header = more.no_grpc_header;
      } in
      if is_empty extra
      then ok own
      else then_build (or_fail bad_xhttp_extra (parse_extra extra)) (λ o. ok (overlay more own o))

  abbrev pub first_settings : XhttpProfile → Bytes → SplitHttp E
  first_settings profile path = record {
    host = profile.host;
    path = path;
    mode = profile.mode;
    headers = [];
    no_sse_header = false;
    no_grpc_header = false;
    others = no_others;
  }

  unfoldable pub build_xhttp_settings : BuilderConfig → NodeInfo → Result (SplitHttp E)
  unfolding resolve_xhttp_host_path_mode xhttp_path
  build_xhttp_settings config node_info =
      let profile = resolve_xhttp_host_path_mode config.local node_info in
      then_build (or_fail no_xhttp_path (xhttp_path profile.path)) (λ path.
        elim config.local.xhttp [
          | none ↦ ok (first_settings profile path)
          | some x ↦ with_more config.xhttp_more (first_settings profile path)
        ])
