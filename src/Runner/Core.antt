-- ===== src/Runner/Core.antt =====
-- `loadCore` and `parseConnectionConfig` of panel/panel.go. Files, JSON, the merging of structs and
-- xray-core's configuration are arguments. A panic is a value.
use xray_r4u.Base.{Bool, true, Option, none, some, List, [], ◌∷◌, Bytes, if◌then◌else◌}
use xray_r4u.Text.{is_empty}
use xray_r4u.Runner.Config.{
  LogConfig, ConnetionConfig, Config, default_log_config, default_connetion_config,
}

pub data Panic : Type 0 where
  bad_log_config : Panic
  cannot_read : Bytes → Panic
  cannot_unmarshal : Bytes → Panic
  cannot_build_dns cannot_build_routing cannot_build_inbound cannot_build_outbound : Panic
  bad_connetion_config : Panic
  cannot_create_instance cannot_start_instance : Panic
  unsupported_panel : Bytes → Panic
  bad_controller_config : Panic

pub data Result (A : Type 0) : Type 0 where
  ok : A → Result A
  panicked : Panic → Result A

infixl 5 ◌>>=◌
abbrev pub ◌>>=◌ : {A B : Type 0} → Result A → (A → Result B) → Result B
ok a >>= f = f a
panicked e >>= f = panicked e

abbrev pub or_panic : {A : Type 0} → Panic → Option A → Result A
or_panic e none = panicked e
or_panic e (some a) = ok a

pub record Policy : Type 0 where
  pub stats_user_uplink : Bool
  pub stats_user_downlink : Bool
  pub limits : ConnetionConfig

-- What `loadCore` uses of the system and of xray-core. `Foo` is a built `FooConf`.
pub record CoreLib : Type 1 where
  pub DnsConf : Type 0
  pub Dns : Type 0
  pub RouterConf : Type 0
  pub Router : Type 0
  pub InboundConf : Type 0
  pub Inbound : Type 0
  pub OutboundConf : Type 0
  pub Outbound : Type 0
  pub read_file : Bytes → Option Bytes
  pub merge_log : LogConfig → LogConfig → Option LogConfig
  pub merge_connetion : ConnetionConfig → ConnetionConfig → Option ConnetionConfig
  pub empty_dns : DnsConf
  pub unmarshal_dns : Bytes → Option DnsConf
  pub build_dns : DnsConf → Option Dns
  pub empty_router : RouterConf
  pub unmarshal_router : Bytes → Option RouterConf
  pub build_router : RouterConf → Option Router
  pub unmarshal_inbounds : Bytes → Option (List InboundConf)
  pub build_inbound : InboundConf → Option Inbound
  pub unmarshal_outbounds : Bytes → Option (List OutboundConf)
  pub build_outbound : OutboundConf → Option Outbound

-- A list of configurations, built in order; the first that fails panics.
abbrev pub build_all : {A B : Type 0} → (A → Option B) → Panic → List A → Result (List B)
build_all build e [] = ok []
build_all build e (c ∷ cs) =
    or_panic e (build c) >>= λ b. (build_all build e cs >>= λ bs. ok (b ∷ bs))

-- With a path, what the file holds; without, a value of its own.
abbrev pub read_json :
    {A : Type 0} → (Bytes → Option Bytes) → (Bytes → Option A) → A → Bytes → Result A
read_json read_file unmarshal empty path =
    if is_empty path
    then ok empty
    else or_panic (cannot_read path) (read_file path) >>= λ contents.
        or_panic (cannot_unmarshal path) (unmarshal contents)

abbrev pub merged : {A : Type 0} → (A → A → Option A) → Panic → A → Option A → Result A
merged merge e default none = ok default
merged merge e default (some own) = or_panic e (merge default own)

module _ (x : CoreLib) where
  open x use {
    Dns, Router, Inbound, Outbound, InboundConf, OutboundConf, read_file, merge_log,
    merge_connetion, empty_dns, unmarshal_dns, build_dns, empty_router, unmarshal_router,
    build_router, unmarshal_inbounds, build_inbound, unmarshal_outbounds, build_outbound,
  }

  pub record CoreConfig : Type 0 where
    pub log : LogConfig
    pub policy : Policy
    pub dns : Dns
    pub route : Router
    pub inbounds : List Inbound
    pub outbounds : List Outbound

  abbrev pub no_inbounds : List InboundConf
  no_inbounds = []

  abbrev pub no_outbounds : List OutboundConf
  no_outbounds = []

  unfoldable pub parse_connection_config : Option ConnetionConfig → Result Policy
  parse_connection_config c =
      merged merge_connetion bad_connetion_config default_connetion_config c >>= λ limits.
      ok (record { stats_user_uplink = true; stats_user_downlink = true; limits = limits })

  module _ {A C : Type 0} where
    -- `loadCore` up to the creation of the instance.
    unfoldable pub core_config : Config A C → Result CoreConfig
    unfolding parse_connection_config
    core_config c = do
      log ← merged merge_log bad_log_config default_log_config c.log_config
      dns_conf ← read_json read_file unmarshal_dns empty_dns c.dns_config_path
      dns ← or_panic cannot_build_dns (build_dns dns_conf)
      route_conf ← read_json read_file unmarshal_router empty_router c.route_config_path
      route ← or_panic cannot_build_routing (build_router route_conf)
      inbound_confs ← read_json read_file unmarshal_inbounds no_inbounds c.inbound_config_path
      inbounds ← build_all build_inbound cannot_build_inbound inbound_confs
      outbound_confs ← read_json read_file unmarshal_outbounds no_outbounds c.outbound_config_path
      outbounds ← build_all build_outbound cannot_build_outbound outbound_confs
      policy ← parse_connection_config c.connetion_config
      ok (record {
        log = log;
        policy = policy;
        dns = dns;
        route = route;
        inbounds = inbounds;
        outbounds = outbounds;
      })
