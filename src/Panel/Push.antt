-- ===== src/Panel/Push.antt =====
-- The bodies of the pushes of api/v2board/v2board.go: ReportUserTraffic and ReportNodeOnlineUsers.
use xray_r4u.Base.{
  ◌≡◌, sym, ap, ◌∙◌, Option, none, some, List, [], ◌∷◌, ◌++◌, Bytes, ℤ, int_beq, int_beq_iff,
  int_eq, if◌then◌else◌, arith, inl, inr, Bool-cases,
}
use mathlib.Core.List.{append-nil, append_assoc}
use xray_r4u.GoMap.{Map, lookup, insert, lookup-insert, lookup-nil}
use xray_r4u.Api.{OnlineUser, UserTraffic}

-- One entry for each user; a later one replaces an earlier one of the same uid.
unfoldable pub store_traffic : List UserTraffic → Map ℤ (ℤ × ℤ) → Map ℤ (ℤ × ℤ)
unfolding insert
store_traffic [] body = body
store_traffic (t ∷ ts) body = store_traffic ts (insert t.uid (t.upload, t.download) body)

unfoldable pub traffic_body : List UserTraffic → Map ℤ (ℤ × ℤ)
unfolding store_traffic
traffic_body ts = store_traffic ts []

abbrev pub or_no_ips : Option (List Bytes) → List Bytes
or_no_ips none = []
or_no_ips (some ips) = ips

-- The addresses are appended to what the uid has.
unfoldable pub store_online : List OnlineUser → Map ℤ (List Bytes) → Map ℤ (List Bytes)
unfolding insert lookup
store_online [] body = body
store_online (u ∷ us) body =
    store_online us (insert u.uid (or_no_ips (lookup u.uid body) ++ u.ip ∷ []) body)

unfoldable pub online_body : List OnlineUser → Map ℤ (List Bytes)
unfolding store_online
online_body us = store_online us []

-- The addresses that a report has for a uid, in its order.
abbrev pub ips_of : ℤ → List OnlineUser → List Bytes
ips_of uid [] = []
ips_of uid (u ∷ us) = let rest = ips_of uid us in if int_beq u.uid uid then u.ip ∷ rest else rest

store_online-ips :
    (uid : ℤ) (us : List OnlineUser) (body : Map ℤ (List Bytes))
    → or_no_ips (lookup uid (store_online us body)) ≡ or_no_ips (lookup uid body) ++ ips_of uid us
unfolding store_online
store_online-ips uid [] body = sym (append-nil (or_no_ips (lookup uid body)))
store_online-ips uid (u ∷ us) body =
    let ips = or_no_ips (lookup u.uid body) in
    let stored = lookup-insert u.uid uid (ips ++ u.ip ∷ []) body in
    elim (Bool-cases (int_beq u.uid uid)) [
      | inl m ↦
          store_online-ips uid us (insert u.uid (ips ++ u.ip ∷ []) body)
          ∙ ground (
            arith,
            m,
            stored,
            (int_beq_iff u.uid uid).0 m,
            append_assoc ips (u.ip ∷ []) (ips_of uid us),
          )
      | inr m ↦
          store_online-ips uid us (insert u.uid (ips ++ u.ip ∷ []) body) ∙ ground (arith, m, stored)
    ]

-- The body of the online report has for each uid the addresses of the report's users with that uid,
-- all of them and in their order, whether or not they stand together in the list.
pub online_body-ips :
    (uid : ℤ) (us : List OnlineUser) → or_no_ips (lookup uid (online_body us)) ≡ ips_of uid us
unfolding online_body
online_body-ips uid us =
    store_online-ips uid us []
    ∙ ap (λ o. or_no_ips o ++ ips_of uid us) (lookup-nil (List Bytes) uid)
