-- ===== src/Startup/Outcome.antt =====
-- main.go: when the program comes to serve, and with which server.
use ams_push_server.Base.{
  String, ◌≡◌, refl, sym, ap, ◌∙◌, true, false, Option, none, some, Result, ok, err, inl, inr, ◌⊎◌,
  if◌then◌else◌,
}
use ams_push_server.Environment.{Environment}
use ams_push_server.Config.{
  Config, Files, TlsConfig, load_from_json, get_client_auth_type, load_cas, log_levels,
}
use ams_push_server.Config.Validation.{
  IsSecured, IsLoaded, load_from_json-IsLoaded, get_log_level-known,
}
use ams_push_server.Grpc.{new_push_service}
use ams_push_server.Grpc.Server
use ams_push_server.Grpc.Server.{Server, new_grpc_server}
use ams_push_server.Startup.{
  Host, Exit, Run, fatal, stopped, new_config, failed, served, address, listening, configured, read,
  main,
}

-- The tls of a server: none when tls is not enabled; otherwise a configuration, which is never nil,
-- whose demand on client certificates and whose pool are those of the configuration file.
abbrev pub IsSecure : Files → Config → Server → Type 0
IsSecure files cfg srv =
    ((cfg.tls_enabled ≡ false) × (srv.credentials ≡ none))
    ⊎ ((cfg.tls_enabled ≡ true)
        × (tls : TlsConfig) × (srv.credentials ≡ some (some tls))
        × (tls.client_auth ≡ get_client_auth_type cfg)
        × (tls.client_cas ≡ load_cas files cfg))

-- The outcomes of the program.
pub data IsRun (env : Environment) (files : Files) (host : Host) (cfg_path : String)
    : Run → Type 0 where
  not_read :
      (e : String)
      → host.read_file cfg_path ≡ err e
      → IsRun env files host cfg_path
          (record { server = none; exit = fatal "Could not read configuration file" e })
  not_loaded :
      (text e : String)
      → host.read_file cfg_path ≡ ok text
      → load_from_json files text new_config ≡ err e
      → IsRun env files host cfg_path
          (record { server = none; exit = fatal "Could not load configuration file" e })
  not_listening :
      (text e : String) (cfg : Config)
      → host.read_file cfg_path ≡ ok text
      → load_from_json files text new_config ≡ ok cfg
      → host.listen_error (address env files host cfg) ≡ some e
      → IsRun env files host cfg_path (record { server = none; exit = fatal "Could not listen" e })
  up :
      (text : String) (cfg : Config) (l : IsLoaded files text new_config cfg) (srv : Server)
      (exit : Exit)
      → host.read_file cfg_path ≡ ok text
      → host.listen_error (address env files host cfg) ≡ none
      → srv.service ≡ new_push_service env cfg
      → srv.tls_enabled ≡ cfg.tls_enabled
      → srv.acl ≡ cfg.acl
      → log_levels (files.to_upper cfg.log_level) ≡ some srv.log_level
      → IsSecure files cfg srv
      → (((exit ≡ stopped) × (host.serve_error srv ≡ none))
          ⊎ ((e : String) × (exit ≡ fatal "Could not serve" e) × (host.serve_error srv ≡ some e)))
      → IsRun env files host cfg_path (record { server = some srv; exit = exit })

module _ (env : Environment) (files : Files) (read_cfg cfg : Config) where
  secure : IsSecured files read_cfg cfg → IsSecure files cfg (new_grpc_server env files cfg)
  unfolding new_grpc_server Server.get_tls_config get_client_auth_type load_cas
  secure (inl (off, same)) =
      let e : cfg.tls_enabled ≡ false = ap (λ c. c.tls_enabled) same ∙ off in
      inl (e, ap (λ b. if b then some cfg.tls_config else none) e)
  secure (inr (on, _, same)) =
      let e : cfg.tls_enabled ≡ true = ap (λ c. c.tls_enabled) same ∙ on in
      inr (
        e,
        _,
        ap (λ b. if b then some cfg.tls_config else none) e ∙ ap (λ c. some c.tls_config) same,
        ap get_client_auth_type (sym same),
        ap (load_cas files) (sym same),
      )

  same_level : IsSecured files read_cfg cfg → cfg.log_level ≡ read_cfg.log_level
  same_level (inl (off, same)) = ap (λ c. c.log_level) same
  same_level (inr (on, _, same)) = ap (λ c. c.log_level) same

module _ (env : Environment) (files : Files) (host : Host) (cfg_path : String) where
  up-IsRun :
      (text : String) (cfg : Config) (o : Option String)
      → host.read_file cfg_path ≡ ok text
      → IsLoaded files text new_config cfg
      → host.listen_error (address env files host cfg) ≡ none
      → host.serve_error (new_grpc_server env files cfg) ≡ o
      → IsRun env files host cfg_path (served (new_grpc_server env files cfg) o)
  unfolding served new_grpc_server
  up-IsRun text cfg none r l q s =
      let known =
        ap (λ t. log_levels (files.to_upper t)) (same_level env files l.read cfg l.secured)
        ∙ l.level_known in
      up text cfg l _ stopped r q refl refl refl
        (known ∙ ap some (sym (get_log_level-known files.to_upper cfg known)))
        (secure env files l.read cfg l.secured) (inl (refl, s))
  up-IsRun text cfg (some e) r l q s =
      let known =
        ap (λ t. log_levels (files.to_upper t)) (same_level env files l.read cfg l.secured)
        ∙ l.level_known in
      up text cfg l _ (fatal "Could not serve" e) r q refl refl refl
        (known ∙ ap some (sym (get_log_level-known files.to_upper cfg known)))
        (secure env files l.read cfg l.secured) (inr (e, refl, s))

  listening-IsRun :
      (text : String) (cfg : Config) (o : Option String)
      → host.read_file cfg_path ≡ ok text
      → load_from_json files text new_config ≡ ok cfg
      → host.listen_error (address env files host cfg) ≡ o
      → IsRun env files host cfg_path (listening env files host cfg o)
  unfolding listening failed
  listening-IsRun text cfg (some e) r l q = not_listening text e cfg r l q
  listening-IsRun text cfg none r l q =
      up-IsRun text cfg _ r (load_from_json-IsLoaded files text new_config cfg l) q refl

  configured-IsRun :
      (text : String) (c : Result String Config)
      → host.read_file cfg_path ≡ ok text
      → load_from_json files text new_config ≡ c
      → IsRun env files host cfg_path (configured env files host c)
  unfolding configured failed
  configured-IsRun text (err e) r l = not_loaded text e r l
  configured-IsRun text (ok cfg) r l = listening-IsRun text cfg _ r l refl

  read-IsRun :
      (t : Result String String)
      → host.read_file cfg_path ≡ t
      → IsRun env files host cfg_path (read env files host t)
  unfolding read failed
  read-IsRun (err e) r = not_read e r
  read-IsRun (ok text) r = configured-IsRun text _ r refl

  -- The program ends in one of the ways of `IsRun`. It fails at the first of reading its
  -- configuration, loading it and listening that fails; otherwise it serves, with the interceptors of
  -- the configuration, the configured log level, and tls exactly if the configuration enables it: then
  -- the tls configuration is not nil and demands certificates as the configuration says.
  pub main-IsRun : IsRun env files host cfg_path (main env files host cfg_path)
  unfolding main
  main-IsRun = read-IsRun _ refl
