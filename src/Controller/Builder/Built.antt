-- ===== src/Controller/Builder/Built.antt =====
-- What holds of an inbound that service/controller/inboundbuilder.go has built.
use xray_r4u.Base.{
  ◌≡◌, refl, sym, ap, ◌∙◌, Bool, true, false, Option, none, some, [], ◌∷◌, Bytes, bytes_beq,
  bytes_beq_iff, codes, arith, inl, inr, Bool-cases, Option-cases,
}
use xray_r4u.Text.{is_empty, to_lower}
use xray_r4u.Api.{NodeInfo}
use xray_r4u.AnyTls.Fallback.{validate_fallback_addr}
use xray_r4u.Controller.Stream.{resolve_security, resolve_transport, resolve_vless_decryption}
use xray_r4u.Controller.Builder.Settings.{
  BuilderConfig, StreamSecurity, Stream, core_build_failed, bad_reality_settings, bad_transport,
  Result, ok, then_build, or_fail,
}
use xray_r4u.Controller.Builder.Streams.{
  StreamCore, build_security, build_transport, build_stream_setting,
}
use xray_r4u.Controller.Builder.Steps.{then_build-ok, or_fail-ok, ok-injective}
use xray_r4u.Controller.Builder.Tls.{build_tls_settings}
use xray_r4u.Controller.Builder.Inbound.{
  Detour, ProxySettings, HandlerCore, any_tls_proxy, receiver_of, is_secure, security_name,
  vless_settings, build_any_tls_handler_config, build_vless_handler_config, inbound_builder,
}

abbrev is_any_tls : NodeInfo → Bool
is_any_tls node_info = bytes_beq (to_lower node_info.node_type) (codes "anytls")

empty_text : (s : Bytes) → is_empty s ≡ true → s ≡ []
empty_text [] e = refl
empty_text (c ∷ s) e = absurd (ground arith)

not_reality : {name : Bytes} → codes "tls" ≡ name → bytes_beq name (codes "reality") ≡ true → ⊥
not_reality {name} e r = absurd (ground (arith, rw (← e) at r))

not_reality_plain : {name : Bytes} → [] ≡ name → bytes_beq name (codes "reality") ≡ true → ⊥
not_reality_plain {name} e r = absurd (ground (arith, rw (← e) at r))

named : (word name : Bytes) → bytes_beq word name ≡ true → word ≡ name
named word name e = (bytes_beq_iff word name).0 e

module _ {E : Type 0} (core : StreamCore E) where
  build_security-name :
      (config : BuilderConfig) (node_info : NodeInfo) (s : StreamSecurity E)
      → build_security core config node_info ≡ ok s
      → (security_name s ≡ resolve_security config.local node_info)
        × (bytes_beq (security_name s) (codes "reality") ≡ true
            → is_empty node_info.reality_settings ≡ false)
  unfolding build_security
  build_security-name config node_info s e =
      let security = resolve_security config.local node_info in
      elim (Bool-cases (bytes_beq security (codes "reality"))) [
        | inl m ↦ elim (Bool-cases (is_empty node_info.reality_settings)) [
          | inl bare ↦ absurd (ground (arith, rw (m, bare) at e))
          | inr given ↦
              let parsed =
                or_fail bad_reality_settings (core.parse_reality node_info.reality_settings) in
              let built = then_build-ok parsed _ s (rw (m, given) at e) in
              let same = ok-injective built.1.1 in
              (ap security_name (sym same) ∙ sym (named security (codes "reality") m), λ _. given)
        ]
        | inr m ↦ elim (Bool-cases (bytes_beq security (codes "tls"))) [
          | inl t ↦
              let built =
                then_build-ok (build_tls_settings core.certs config.cert) _ s (rw (m, t) at e) in
              let same = ap security_name (ok-injective built.1.1) in
              (sym same ∙ sym (named security (codes "tls") t), λ r. absurd (not_reality same r))
          | inr t ↦ elim (Bool-cases (is_empty security)) [
            | inl blank ↦
                let same = ap security_name (ok-injective (rw (m, t, blank) at e)) in
                (sym same ∙ sym (empty_text security blank), λ r. absurd (not_reality_plain same r))
            | inr other ↦ absurd (ground (arith, rw (m, t, other) at e))
          ]
        ]
      ]

  build_stream_setting-security :
      (config : BuilderConfig) (node_info : NodeInfo) (stream : Stream E)
      → build_stream_setting core config node_info ≡ ok stream
      → build_security core config node_info ≡ ok stream.security
  unfolding build_stream_setting
  build_stream_setting-security config node_info stream e =
      let name = resolve_transport config.local node_info in
      let typed = then_build-ok (or_fail bad_transport (core.network_type name)) _ stream e in
      let moved =
        then_build-ok (build_transport core config node_info typed.0) _ stream typed.1.1 in
      let secured = then_build-ok (build_security core config node_info) _ stream moved.1.1 in
      secured.1.0 ∙ ap ok (ap (λ (x : Stream E). x.security) (ok-injective secured.1.1))

module _ (parse_ip : Bytes → Option Bytes) {E R I : Type 0} (handlers : HandlerCore E R I) where
  open handlers use {build_detour, build_receiver, handler}

  any_tls_proxy-ok :
      (config : BuilderConfig) (p : ProxySettings)
      → any_tls_proxy parse_ip handlers config ≡ ok p
      → validate_fallback_addr parse_ip config.any_tls_fallback ≡ none
  any_tls_proxy-ok config p e =
      elim (Option-cases (validate_fallback_addr parse_ip config.any_tls_fallback)) [
        | inl n ↦ n
        | inr (err, q) ↦ absurd (ground (arith, rw (q, any_tls_proxy) at e))
      ]

  any_tls-built :
      (config : BuilderConfig) (node_info : NodeInfo) (tag : Bytes) (stream : Stream E) (i : I)
      → build_any_tls_handler_config parse_ip handlers config node_info tag stream ≡ ok i
      → (is_secure (security_name stream.security) ≡ true)
        × ((validate_fallback_addr parse_ip config.any_tls_fallback ≡ none)
            × ((receiver : R) × ((proxy : ProxySettings) × (handler tag receiver proxy ≡ i))))
  unfolding build_any_tls_handler_config
  any_tls-built config node_info tag stream i e =
      elim (Bool-cases (is_secure (security_name stream.security))) [
        | inr bare ↦ absurd (ground (arith, rw bare at e))
        | inl secure ↦
            let built =
              or_fail core_build_failed (build_receiver (receiver_of config node_info stream)) in
            let finish : R → ProxySettings → Result I = λ r proxy. ok (handler tag r proxy) in
            let proxied = any_tls_proxy parse_ip handlers config in
            let received =
              then_build-ok built (λ r. then_build proxied (finish r)) i (rw secure at e) in
            let checked = then_build-ok proxied (finish received.0) i received.1.1 in
            (
              secure,
              (
                any_tls_proxy-ok config checked.0 checked.1.0,
                (received.0, (checked.0, ok-injective checked.1.1)),
              ),
            )
      ]

  vless_settings-ok :
      (config : BuilderConfig) (node_info : NodeInfo) (p : ProxySettings)
      → vless_settings config node_info ≡ ok p
      → config.local.enable_fallback ≡ true
      → resolve_vless_decryption config.local node_info ≡ codes "none"
  unfolding vless_settings
  vless_settings-ok config node_info p e on =
      let decryption = resolve_vless_decryption config.local node_info in
      elim (Bool-cases (bytes_beq decryption (codes "none"))) [
        | inl m ↦ named decryption (codes "none") m
        | inr m ↦ absurd (ground (arith, rw (on, m) at e))
      ]

  vless-built :
      (config : BuilderConfig) (node_info : NodeInfo) (tag : Bytes) (stream : Stream E) (i : I)
      → build_vless_handler_config parse_ip handlers config node_info tag stream ≡ ok i
      → (proxy : ProxySettings) × ((vless_settings config node_info ≡ ok proxy)
          × (build_detour (record {
            tag = tag;
            receiver = receiver_of config node_info stream;
            proxy = proxy;
          })
              ≡ some i))
  unfolding build_vless_handler_config
  vless-built config node_info tag stream i e =
      let chosen = then_build-ok (vless_settings config node_info) _ i e in
      (chosen.0, (chosen.1.0, or_fail-ok core_build_failed _ i chosen.1.1))

  -- An inbound that is built with the security of REALITY had settings from the panel.
  pub inbound_builder-reality :
      (core : StreamCore E) (config : BuilderConfig) (node_info : NodeInfo) (tag : Bytes) (i : I)
      → inbound_builder parse_ip handlers core config node_info tag ≡ ok i
      → bytes_beq (resolve_security config.local node_info) (codes "reality") ≡ true
      → is_empty node_info.reality_settings ≡ false
  unfolding inbound_builder
  inbound_builder-reality core config node_info tag i e m =
      let built = then_build-ok (build_stream_setting core config node_info) _ i e in
      let named =
        build_security-name core config node_info built.0.security
          (build_stream_setting-security core config node_info built.0 built.1.0) in
      named.1 (rw (named.0) m)

  module _ (tag_of : I → Bytes)
      (build_detour-tag : (d : Detour E) (i : I) → build_detour d ≡ some i → tag_of i ≡ d.tag)
      (handler-tag : (tag : Bytes) (r : R) (p : ProxySettings)
        → tag_of (handler tag r p) ≡ tag) where
    -- What the builder's guards have made sure of.
    pub record IsGuarded (config : BuilderConfig) (node_info : NodeInfo) (tag : Bytes) (i : I)
        : Type 0 where
      pub tagged : tag_of i ≡ tag
      pub any_tls_secure :
          is_any_tls node_info ≡ true
          → (is_secure (resolve_security config.local node_info) ≡ true)
            × (validate_fallback_addr parse_ip config.any_tls_fallback ≡ none)
      pub fallback_plain :
          is_any_tls node_info ≡ false
          → config.local.enable_fallback ≡ true
          → resolve_vless_decryption config.local node_info ≡ codes "none"
      pub reality_given :
          bytes_beq (resolve_security config.local node_info) (codes "reality") ≡ true
          → is_empty node_info.reality_settings ≡ false

    -- An inbound that is built has the tag it was asked for; as AnyTLS its security is TLS or REALITY
    -- and its fallback passed the check; as VLESS with fallbacks it has no encryption of its own; and
    -- as REALITY the panel gave settings for it.
    pub inbound_builder-IsGuarded :
        (core : StreamCore E) (config : BuilderConfig) (node_info : NodeInfo) (tag : Bytes) (i : I)
        → inbound_builder parse_ip handlers core config node_info tag ≡ ok i
        → IsGuarded config node_info tag i
    unfolding inbound_builder build_stream_setting
    inbound_builder-IsGuarded core config node_info tag i e =
        let built = then_build-ok (build_stream_setting core config node_info) _ i e in
        let stream = built.0 in
        let named =
          build_security-name core config node_info stream.security
            (build_stream_setting-security core config node_info stream built.1.0) in
        let reality = inbound_builder-reality core config node_info tag i e in
        elim (Bool-cases (is_any_tls node_info)) [
          | inl any_tls ↦
              let w = any_tls-built config node_info tag stream i (rw any_tls at built.1.1) in
              record {
                tagged = ap tag_of (sym w.1.1.1.1) ∙ handler-tag tag w.1.1.0 w.1.1.1.0;
                any_tls_secure = λ _. (rw (← named.0) w.0, w.1.0);
                fallback_plain = λ m _. absurd (ground (arith, m, any_tls));
                reality_given = reality;
              }
          | inr other ↦
              let w = vless-built config node_info tag stream i (rw other at built.1.1) in
              record {
                tagged = build_detour-tag _ i w.1.1;
                any_tls_secure = λ m. absurd (ground (arith, m, other));
                fallback_plain = λ _ on. vless_settings-ok config node_info w.0 w.1.0 on;
                reality_given = reality;
              }
        ]
