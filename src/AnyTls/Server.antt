-- ===== src/AnyTls/Server.antt =====
-- proxy/anytls/inbound.go and `NewService` of proxy/anytls/lib/service.go: the AnyTLS inbound and what
-- becomes of a connection to it. Reading a padding scheme (lib/padding) is an argument.
use xray_r4u.Base.{Bool, Option, none, some, List, [], Bytes, if◌then◌else◌, not}
use xray_r4u.Text.{is_empty}
use xray_r4u.AnyTls.Fallback.{FallbackError, validate_fallback_addr}
use xray_r4u.AnyTls.Service.{User, Service, user_table, update_users}

-- The fields of the protobuf configuration.
pub record Config : Type 0 where
  pub padding_scheme : Bytes
  pub fallback_addr : Bytes

-- The service with its padding, and the address of the fallback's handler.
pub record Server : Type 0 where
  pub service : Service
  pub padding : Bytes
  pub fallback_handler : Option Bytes

pub data ServerError : Type 0 where
  bad_fallback : FallbackError → ServerError
  bad_padding : ServerError

pub data Built : Type 0 where
  built : Server → Built
  failed : ServerError → Built

module _ (default_padding_scheme : Bytes) (is_scheme : Bytes → Bool) where
  -- The handler and the logger of the configuration are there.
  unfoldable pub new_service : (Bytes → Bytes) → List User → Bytes → Option Bytes → Built
  unfolding user_table
  new_service sha256 users scheme handler =
      if not (is_scheme scheme)
      then failed bad_padding
      else built (record {
        service = record { users = user_table sha256 users []; sessions = [] };
        padding = scheme;
        fallback_handler = handler;
      })

  abbrev pub scheme_of : Config → Bytes
  scheme_of c = if is_empty c.padding_scheme then default_padding_scheme else c.padding_scheme

  module _ (parse_ip : Bytes → Option Bytes) where
    abbrev pub check_configured : Bytes → Option FallbackError
    check_configured addr = if is_empty addr then none else validate_fallback_addr parse_ip addr

    abbrev pub handler_of : Bytes → Option Bytes
    handler_of addr = if is_empty addr then none else some addr

    unfoldable pub new_server : (Bytes → Bytes) → Config → Built
    unfolding new_service validate_fallback_addr
    new_server sha256 c = elim (check_configured c.fallback_addr) [
      | some err ↦ failed (bad_fallback err)
      | none ↦ new_service sha256 [] (scheme_of c) (handler_of c.fallback_addr)
    ]

-- `Server.UpdateUsers`
unfoldable pub update_server_users : (Bytes → Bytes) → List User → Server → Server
unfolding update_users
update_server_users sha256 users s = record s { service = update_users sha256 users s.service }
