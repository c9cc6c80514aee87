-- ===== src/Examples/Starting.antt =====
-- main.go and config/config.go: the theorems on the start of the program and on the pool of
-- certificates, for one configuration.
use ams_push_server.Base.{
  ◌≡◌, ◌↔◌, refl, none, some, ok, err, true, inl, inr, Elem, ◌==◌, if◌then◌else◌,
}
use ams_push_server.Config.{load_cas}
use ams_push_server.Config.Pool.{IsCertificate, IsVisited, load_cas-IsCertificate, load_cas_iff}
use ams_push_server.Startup.{Host, main}
use ams_push_server.Startup.Outcome.{IsRun, main-IsRun}
use ams_push_server.Examples.{example_env, example_config}
use ams_push_server.Examples.Settings.{example_files}

-- A machine with a configuration file, whose port is free, and whose server ends with an error.
abbrev example_host : Host
example_host = record {
  read_file = λ name. if name == "/etc/push.json" then ok "{}" else err "no such file";
  listen_error = λ address. none;
  serve_error = λ srv. some "accept: too many open files";
}

main-IsRun_example :
    IsRun example_env example_files example_host "/etc/push.json"
      (main example_env example_files example_host "/etc/push.json")
main-IsRun_example = main-IsRun example_env example_files example_host "/etc/push.json"

in_pool : Elem "two.pem" (load_cas example_files example_config)
unfolding load_cas
in_pool = inl refl

load_cas-IsCertificate_example :
    IsVisited "two.pem" (example_files.walk "/certs")
    × IsCertificate example_files "/certs" "two.pem"
load_cas-IsCertificate_example =
    load_cas-IsCertificate example_files example_config "two.pem" in_pool

load_cas_iff_example : Elem "notes.txt" (load_cas example_files example_config) ↔ (
    IsVisited "notes.txt" (example_files.walk "/certs") × (example_files.is_pem "notes.txt" ≡ true))
load_cas_iff_example =
    load_cas_iff example_files example_config "notes.txt"
      (inr (refl, "one.pem", refl, refl), (inl refl, (inr (refl, "two.pem", refl, refl), tt)))
