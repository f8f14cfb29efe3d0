-- ===== src/Controller/Changed.antt =====
-- `nodeInfoEqual` of service/controller/controller.go, by which the controller sees whether a node's
-- configuration changed. Both pointers are non-nil where it is called.
use xray_r4u.Base.{
  ◌≡◌, ◌↔◌, refl, sym, Bool, true, false, bytes_beq, bytes_beq_iff, int_beq, int_beq_iff, nat_beq,
  nat_beq_iff, ◌&&◌, arith, bytes_eq, int_eq, nat_eq,
}
use xray_r4u.Api.{NodeInfo}

abbrev flag_beq : Bool → Bool → Bool
flag_beq true b = b
flag_beq false true = false
flag_beq false false = true

unfoldable pub node_info_equal : NodeInfo → NodeInfo → Bool
node_info_equal a b =
    int_beq a.node_id b.node_id
    && (int_beq a.port b.port
        && (bytes_beq a.node_type b.node_type
            && (nat_beq a.speed_limit b.speed_limit
                && (int_beq a.alter_id b.alter_id
                    && (bytes_beq a.transport_protocol b.transport_protocol
                        && (bytes_beq a.fake_type b.fake_type
                            && (bytes_beq a.host b.host
                                && (bytes_beq a.path b.path
                                    && (flag_beq a.enable_tls b.enable_tls
                                        && (bytes_beq a.tls_type b.tls_type
                                            && (flag_beq a.enable_vision b.enable_vision
                                                && (flag_beq a.enable_vless b.enable_vless
                                                    && (bytes_beq a.cypher_method b.cypher_method
                                                        && (bytes_beq a.service_name b.service_name
                                                            && (bytes_beq a.vless_decryption
                                                            b.vless_decryption
                                                            && (bytes_beq a.header b.header
                                                            && bytes_beq a.reality_settings
                                                            b.reality_settings))))))))))))))))

and_iff :
    {P Q : Type 0} (p q : Bool) → ((p ≡ true) ↔ P) → ((q ≡ true) ↔ Q) → ((p && q) ≡ true) ↔ (P × Q)
and_iff true q f g = (λ h. (f.0 refl, g.0 h), λ h. g.1 h.1)
and_iff false q f g = (λ h. absurd (ground arith), λ h. f.1 h.0)

flag_beq_iff : (a b : Bool) → (flag_beq a b ≡ true) ↔ (a ≡ b)
flag_beq_iff a b = ground arith

-- The fields are equal, one by one.
abbrev AreSame : NodeInfo → NodeInfo → Type 0
AreSame a b =
    (a.node_id ≡ b.node_id)
    × ((a.port ≡ b.port)
        × ((a.node_type ≡ b.node_type)
            × ((a.speed_limit ≡ b.speed_limit)
                × ((a.alter_id ≡ b.alter_id)
                    × ((a.transport_protocol ≡ b.transport_protocol)
                        × ((a.fake_type ≡ b.fake_type)
                            × ((a.host ≡ b.host)
                                × ((a.path ≡ b.path)
                                    × ((a.enable_tls ≡ b.enable_tls)
                                        × ((a.tls_type ≡ b.tls_type)
                                            × ((a.enable_vision ≡ b.enable_vision)
                                                × ((a.enable_vless ≡ b.enable_vless)
                                                    × ((a.cypher_method ≡ b.cypher_method)
                                                        × ((a.service_name ≡ b.service_name)
                                                            × ((a.vless_decryption
                                                            ≡ b.vless_decryption)
                                                            × ((a.header ≡ b.header)
                                                            × (a.reality_settings
                                                            ≡ b.reality_settings)))))))))))))))))

node_info_equal-AreSame : (a b : NodeInfo) → (node_info_equal a b ≡ true) ↔ AreSame a b
unfolding node_info_equal
node_info_equal-AreSame a b = and_iff _ _ (int_beq_iff a.node_id b.node_id) (
    and_iff _ _ (int_beq_iff a.port b.port) (
      and_iff _ _ (bytes_beq_iff a.node_type b.node_type) (
        and_iff _ _ (nat_beq_iff a.speed_limit b.speed_limit) (
          and_iff _ _ (int_beq_iff a.alter_id b.alter_id) (
            and_iff _ _ (bytes_beq_iff a.transport_protocol b.transport_protocol) (
              and_iff _ _ (bytes_beq_iff a.fake_type b.fake_type) (
                and_iff _ _ (bytes_beq_iff a.host b.host) (
                  and_iff _ _ (bytes_beq_iff a.path b.path) (
                    and_iff _ _ (flag_beq_iff a.enable_tls b.enable_tls) (
                      and_iff _ _ (bytes_beq_iff a.tls_type b.tls_type) (
                        and_iff _ _ (flag_beq_iff a.enable_vision b.enable_vision) (
                          and_iff _ _ (flag_beq_iff a.enable_vless b.enable_vless) (
                            and_iff _ _ (bytes_beq_iff a.cypher_method b.cypher_method) (
                              and_iff _ _ (bytes_beq_iff a.service_name b.service_name) (
                                and_iff _ _ (bytes_beq_iff a.vless_decryption b.vless_decryption) (
                                  and_iff _ _ (bytes_beq_iff a.header b.header) (
                                    bytes_beq_iff a.reality_settings
                                      b.reality_settings)))))))))))))))))

AreSame-eq : (a b : NodeInfo) → AreSame a b → a ≡ b
AreSame-eq a b h = cc

node_info_equal_self : (a : NodeInfo) → node_info_equal a a ≡ true
node_info_equal_self a = (node_info_equal-AreSame a a).1 (
  refl,
  (
    refl,
    (
      refl,
      (
        refl,
        (
          refl,
          (
            refl,
            (
              refl,
              (refl, (refl, (refl, (refl, (refl, (refl, (refl, (refl, (refl, (refl, refl)))))))))),
            ),
          ),
        ),
      ),
    ),
  ),
)

-- Two configurations compare equal exactly if they are equal: no field of the record is left out of
-- the comparison.
pub node_info_equal_iff : (a b : NodeInfo) → (node_info_equal a b ≡ true) ↔ (a ≡ b)
node_info_equal_iff a b = (
  λ h. AreSame-eq a b ((node_info_equal-AreSame a b).0 h),
  λ e. rw (sym e) (node_info_equal_self a),
)
