-- ===== src/Startup.antt =====
-- main.go: the start of the program.
pub mod Outcome
use ams_push_server.Base.{String, ◌++◌, Bool, false, [], Option, none, some, Result, ok, err}
use ams_push_server.Environment.{Environment}
use ams_push_server.Config.{Config, Files, load_from_json}
use ams_push_server.Grpc.Server.{Server, new_grpc_server}

-- What main.go takes from the operating system.
pub record Host : Type 0 where
  -- os.ReadFile
  pub read_file : String → Result String String
  -- net.Listen("tcp", address): its error, if any
  pub listen_error : String → Option String
  -- srv.Serve(listener), when it returns: its error, if any
  pub serve_error : Server → Option String

-- How main ends: by log.Fatal with a message and an error, or by returning.
pub data Exit : Type 0 where
  fatal : String → String → Exit
  stopped : Exit

-- The server, if the program came to serve, and how it ended.
pub record Run : Type 0 where
  pub server : Option Server
  pub exit : Exit

-- new(config.Config)
abbrev pub new_config : Config
new_config = record {
  bind_ip = "";
  bind_port = 0;
  certificate = "";
  certificate_key = "";
  certificate_authorities_dir = "";
  ams_token = "";
  ams_host = "";
  ams_port = 0;
  verify_ssl = false;
  tls_enabled = false;
  trust_unknown_cas = false;
  log_level = "";
  skip_subs_load = false;
  tls_config = none;
  acl = [];
  syslog_enabled = false;
}

failed : String → String → Run
failed message error = record { server = none; exit = fatal message error }

served : Server → Option String → Run
served srv none = record { server = some srv; exit = stopped }
served srv (some e) = record { server = some srv; exit = fatal "Could not serve" e }

module _ (env : Environment) (files : Files) (host : Host) where
  -- fmt.Sprintf("%v:%v", cfg.BindIp, cfg.BindPort)
  pub address : Config → String
  address cfg = (cfg.bind_ip ++ ":") ++ env.format_int cfg.bind_port

  listening : Config → Option String → Run
  unfolding failed served new_grpc_server
  listening cfg (some e) = failed "Could not listen" e
  listening cfg none = let srv = new_grpc_server env files cfg in served srv (host.serve_error srv)

  configured : Result String Config → Run
  unfolding failed listening address
  configured (err e) = failed "Could not load configuration file" e
  configured (ok cfg) = listening cfg (host.listen_error (address cfg))

  read : Result String String → Run
  unfolding failed configured load_from_json
  read (err e) = failed "Could not read configuration file" e
  read (ok text) = configured (load_from_json files text new_config)

  -- func main(), with the path of the configuration file
  unfoldable pub main : String → Run
  unfolding read
  main cfg_path = read (host.read_file cfg_path)
