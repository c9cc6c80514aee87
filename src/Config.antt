-- ===== src/Config.antt =====
-- config/config.go: the configuration, its validation and the trusted certificates. The fields are
-- listed for the reflection of `validateRequired` as the struct declares them.
pub mod Validation
pub mod Pool
pub mod Mock
use ams_push_server.Base.{
  ℕ, String, ◌++◌, ◌==◌, Bool, true, false, not, List, [], ◌∷◌, Option, none, some, Result, ok, err,
  unless, eqb, if◌then◌else◌,
}

pub data ClientAuthType : Type 0 where
  require_any_client_cert require_and_verify_client_cert : ClientAuthType

-- The pool is the list of the certificate files that were appended, newest first. The other fields
-- of the tls configuration are constants of the code.
pub record TlsConfig : Type 0 where
  pub client_auth : ClientAuthType
  pub certificate : String
  pub client_cas : List String

pub record Config : Type 0 where
  pub bind_ip : String
  pub bind_port : ℕ
  pub certificate : String
  pub certificate_key : String
  pub certificate_authorities_dir : String
  pub ams_token : String
  pub ams_host : String
  pub ams_port : ℕ
  pub verify_ssl : Bool
  pub tls_enabled : Bool
  pub trust_unknown_cas : Bool
  pub log_level : String
  pub skip_subs_load : Bool
  pub tls_config : Option TlsConfig
  pub acl : List String
  pub syslog_enabled : Bool

pub data Level : Type 0 where
  debug_level info_level warn_level error_level : Level

-- var logLevels
unfoldable pub log_levels : String → Option Level
log_levels name =
    if name == "DEBUG"
    then some debug_level
    else if name == "INFO"
    then some info_level
    else if name == "WARNING"
    then some warn_level
    else if name == "ERROR"
    then some error_level
    else none

level_or_info : Option Level → Level
level_or_info none = info_level
level_or_info (some l) = l

-- func (cfg *Config) GetLogLevel(); `to_upper` is strings.ToUpper
unfoldable pub get_log_level : (String → String) → Config → Level
unfolding level_or_info log_levels
get_log_level to_upper cfg = level_or_info (log_levels (to_upper cfg.log_level))

-- A field's value, as reflection reads it. An unexported field is only passed over.
pub data FieldValue : Type 0 where
  text : String → FieldValue
  number : ℕ → FieldValue
  flag : Bool → FieldValue
  texts : List String → FieldValue
  unexported : FieldValue

-- sf.Tag.Get("json"), sf.Tag.Get("required") == "true", and the value.
pub record Field : Type 0 where
  pub json : String
  pub required : Bool
  pub value : FieldValue

abbrev pub field : String → Bool → FieldValue → Field
field json required value = record { json = json; required = required; value = value }

-- The fields in declaration order, with their tags.
unfoldable pub fields : Config → List Field
fields cfg =
    field "bind_ip" false (text cfg.bind_ip)
    ∷ field "bind_port" true (number cfg.bind_port)
    ∷ field "certificate" true (text cfg.certificate)
    ∷ field "certificate_key" true (text cfg.certificate_key)
    ∷ field "certificate_authorities_dir" true (text cfg.certificate_authorities_dir)
    ∷ field "ams_token" true (text cfg.ams_token)
    ∷ field "ams_host" true (text cfg.ams_host)
    ∷ field "ams_port" true (number cfg.ams_port)
    ∷ field "verify_ssl" false (flag cfg.verify_ssl)
    ∷ field "tls_enabled" false (flag cfg.tls_enabled)
    ∷ field "trust_unknown_cas" false (flag cfg.trust_unknown_cas)
    ∷ field "log_level" true (text cfg.log_level)
    ∷ field "skip_subs_load" false (flag cfg.skip_subs_load)
    ∷ field "" false unexported
    ∷ field "acl" false (texts cfg.acl)
    ∷ field "syslog_enabled" false (flag cfg.syslog_enabled)
    ∷ []

-- reflect.DeepEqual with the zero value of the field's type; a nil slice has no elements.
unfoldable pub is_zero : FieldValue → Bool
is_zero (text s) = s == ""
is_zero (number n) = eqb n 0
is_zero (flag b) = not b
is_zero (texts []) = true
is_zero (texts (t ∷ ts)) = false
is_zero unexported = false

-- The loop of `validateRequired`, with its two continue statements.
first_missing : List Field → Option String
unfolding is_zero
first_missing [] = none
first_missing (f ∷ fs) =
    let rest = first_missing fs in
    elim f.value [
      | unexported ↦ rest
      | v ↦
          if not f.required
          then rest
          else if is_zero v
          then some ("Empty value for field " ++ f.json)
          else rest
    ]

-- func (cfg *Config) validateRequired(): the error, if any
unfoldable pub validate_required : Config → Option String
unfolding first_missing fields
validate_required cfg = first_missing (fields cfg)

-- func (cfg *Config) GetClientAuthType()
unfoldable pub get_client_auth_type : Config → ClientAuthType
get_client_auth_type cfg =
    if cfg.trust_unknown_cas then require_any_client_cert else require_and_verify_client_cert

-- What filepath.Walk hands to its callback, in order: an error of a path; or a path under the
-- directory, and the last element of it, info.Name().
pub data Visit : Type 0 where
  failed : String → Visit
  visited : String → String → Visit

-- The files that the configuration names, and the functions that read them.
pub record Files : Type 0 where
  -- tls.LoadX509KeyPair: its error, if any
  pub load_key_pair_error : String → String → Option String
  -- filepath.Walk over a directory
  pub walk : String → List Visit
  -- filepath.Match("*.pem", name)
  pub is_pem : String → Bool
  -- os.ReadFile of filepath.Join of a directory and a name
  pub read_file : String → String → Result String String
  -- (*x509.CertPool).AppendCertsFromPEM: whether any certificate was parsed
  pub parses : String → Bool
  -- strings.ToUpper
  pub to_upper : String → String
  -- json.NewDecoder(from).Decode(cfg)
  pub decode_config : String → Config → Result String Config

module _ (files : Files) where
  -- One call of the callback: the pool after it, or none to stop the walk. A file that does not parse
  -- stops it too.
  append_file : String → String → List String → Option (List String)
  append_file dir name roots = elim (files.read_file dir name) [
    | err e ↦ none
    | ok bytes ↦ if files.parses bytes then some (name ∷ roots) else none
  ]

  visit : String → Visit → List String → Option (List String)
  unfolding append_file
  visit dir (failed e) roots = none
  visit dir (visited path name) roots =
      if files.is_pem name then append_file dir name roots else some roots

  -- The walk, with the pool as it stands where the walk ends.
  walk_files : String → List Visit → List String → List String
  walk_files dir [] roots = roots
  walk_files dir (v ∷ vs) roots = elim (visit dir v roots) [
    | none ↦ roots
    | some roots' ↦ walk_files dir vs roots'
  ]

  -- func (cfg *Config) loadCAs()
  unfoldable pub load_cas : Config → List String
  unfolding walk_files visit
  load_cas cfg =
      walk_files cfg.certificate_authorities_dir (files.walk cfg.certificate_authorities_dir) []

  -- func (cfg *Config) loadTLSConfig()
  unfoldable pub load_tls_config : Config → Result String Config
  unfolding load_cas get_client_auth_type
  load_tls_config cfg = unless (files.load_key_pair_error cfg.certificate cfg.certificate_key) (
      ok (record cfg {
        tls_config = some (record {
          client_auth = get_client_auth_type cfg;
          certificate = cfg.certificate;
          client_cas = load_cas cfg;
        });
      }))

  check_log_level : Config → Option String
  unfolding log_levels
  check_log_level cfg = elim (log_levels (files.to_upper cfg.log_level)) [
    | none ↦ some ("Invalid log level " ++ cfg.log_level)
    | some l ↦ none
  ]

  load_decoded : Result String Config → Result String Config
  unfolding validate_required check_log_level load_tls_config
  load_decoded (err e) = err e
  load_decoded (ok cfg) =
      unless (validate_required cfg)
        (unless (check_log_level cfg) (if cfg.tls_enabled then load_tls_config cfg else ok cfg))

  -- func (cfg *Config) LoadFromJson(from io.Reader): the text read, into a configuration
  unfoldable pub load_from_json : String → Config → Result String Config
  unfolding load_decoded
  load_from_json from cfg = load_decoded (files.decode_config from cfg)
