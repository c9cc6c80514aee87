-- ===== src/Grpc/Server.antt =====
-- api/v1/grpc/server.go: `NewGRPCServer`. Logging aside, a server is the push service, the tls
-- configuration of its connections, the interceptors' settings, and the answer of the health service.
use ams_push_server.Base.{String, Bool, List, Option, none, some, if◌then◌else◌}
use ams_push_server.Environment.{Environment}
use ams_push_server.Config.{Config, Files, Level, TlsConfig, get_log_level}
use ams_push_server.Grpc.{PushService, new_push_service}

pub data ServingStatus : Type 0 where
  unknown serving not_serving service_unknown : ServingStatus

pub record Server : Type 0 where
  pub service : PushService
  -- credentials.NewTLS(cfg.GetTLSConfig()), whose pointer may be nil; `none` without tls
  pub credentials : Option (Option TlsConfig)
  -- the arguments of AuthInterceptor
  pub acl : List String
  pub tls_enabled : Bool
  -- the status of the service named ""
  pub health : ServingStatus
  pub log_level : Level

-- func (cfg *Config) GetTLSConfig()
unfoldable pub get_tls_config : Config → Option TlsConfig
get_tls_config cfg = cfg.tls_config

-- func NewGRPCServer(cfg *config.Config)
unfoldable pub new_grpc_server : Environment → Files → Config → Server
unfolding get_tls_config new_push_service get_log_level
new_grpc_server env files cfg = record {
  service = new_push_service env cfg;
  credentials = if cfg.tls_enabled then some (get_tls_config cfg) else none;
  acl = cfg.acl;
  tls_enabled = cfg.tls_enabled;
  health = serving;
  log_level = get_log_level files.to_upper cfg;
}
