-- ===== src/Examples/Settings.antt =====
-- config/config.go: the theorem on loading for one configuration.
use ams_push_server.Base.{refl, ◌==◌, not, true, [], ◌∷◌, none, some, ok}
use ams_push_server.Config.{Config, Files, visited, load_from_json, require_and_verify_client_cert}
use ams_push_server.Config.Validation.{IsLoaded, load_from_json-IsLoaded}
use ams_push_server.Examples.{example_config}

abbrev pub example_files : Files
example_files = record {
  load_key_pair_error = λ certificate key. none;
  walk = λ dir.
      visited "/certs/one.pem" "one.pem"
      ∷ visited "/certs/notes.txt" "notes.txt"
      ∷ visited "/certs/old/two.pem" "two.pem"
      ∷ [];
  is_pem = λ name. not (name == "notes.txt");
  read_file = λ dir name. ok name;
  parses = λ bytes. true;
  to_upper = λ name. name;
  decode_config = λ from cfg. ok example_config;
}

abbrev pub loaded : Config
loaded = record example_config {
  tls_config = some (record {
    client_auth = require_and_verify_client_cert;
    certificate = "cert.pem";
    client_cas = "two.pem" ∷ "one.pem" ∷ [];
  });
}

load_from_json-IsLoaded_example : IsLoaded example_files "{}" example_config loaded
unfolding load_from_json
load_from_json-IsLoaded_example =
    load_from_json-IsLoaded example_files "{}" example_config loaded refl
