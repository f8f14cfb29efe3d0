-- ===== src/Controller/Core.antt =====
-- The part of xray-core that service/controller/control.go calls, as an interface: handlers are
-- added and removed by tag, and users are added to the handler of a tag. A call answers whether it
-- succeeded, and the next state in either case, since a call that fails may have done a part.
use xray_r4u.Base.{◌≡◌, ◌≢◌, Bool, Option, Bytes, List}

-- What `buildVlessUser` hands to the core.
pub record VlessUser : Type 0 where
  pub email : Bytes
  pub id : Bytes
  pub vision : Bool

-- What `buildAnyTLSUser` hands to the server.
pub record AnytlsUser : Type 0 where
  pub name : Bytes
  pub password : Bytes

pub record XrayCore : Type 1 where
  pub State : Type 0
  pub Inbound : Type 0
  pub Outbound : Type 0
  -- An inbound handler with the users it knows.
  pub Handler : Type 0
  pub handler : Bytes → State → Option Handler
  pub inbound_tag : Inbound → Bytes
  pub add_inbound : Inbound → State → Bool × State
  pub add_outbound : Outbound → State → Bool × State
  pub remove_inbound : Bytes → State → Bool × State
  pub remove_outbound : Bytes → State → Bool × State
  -- The handler of the tag is there and manages users, or is an AnyTLS server.
  pub has_user_manager : Bytes → State → Bool
  pub has_anytls_server : Bytes → State → Bool
  pub add_user : Bytes → VlessUser → State → Bool × State
  pub remove_user : Bytes → Bytes → State → Bool × State
  pub update_users : Bytes → List AnytlsUser → State → State
  -- A call for one tag leaves the handlers of the others alone.
  pub add_inbound_local :
      (i : Inbound) (s : State) (t : Bytes)
      → inbound_tag i ≢ t
      → handler t (add_inbound i s).1 ≡ handler t s
  pub add_outbound_local :
      (o : Outbound) (s : State) (t : Bytes) → handler t (add_outbound o s).1 ≡ handler t s
  pub remove_inbound_local :
      (tag : Bytes) (s : State) (t : Bytes)
      → tag ≢ t
      → handler t (remove_inbound tag s).1 ≡ handler t s
  pub remove_outbound_local :
      (tag : Bytes) (s : State) (t : Bytes) → handler t (remove_outbound tag s).1 ≡ handler t s
  pub add_user_local :
      (tag : Bytes) (u : VlessUser) (s : State) (t : Bytes)
      → tag ≢ t
      → handler t (add_user tag u s).1 ≡ handler t s
  pub remove_user_local :
      (tag email : Bytes) (s : State) (t : Bytes)
      → tag ≢ t
      → handler t (remove_user tag email s).1 ≡ handler t s
  pub update_users_local :
      (tag : Bytes) (us : List AnytlsUser) (s : State) (t : Bytes)
      → tag ≢ t
      → handler t (update_users tag us s) ≡ handler t s
