-- ===== src/Config/Mock.antt =====
-- config/mock.go: the configuration of the tests.
use ams_push_server.Base.{true, false}
use ams_push_server.Config.{Config}
use ams_push_server.Startup.{new_config}

-- func NewMockConfig()
abbrev pub new_mock_config : Config
new_mock_config = record new_config {
  bind_port = 9000;
  certificate = "/path/cert.pem";
  certificate_key = "/path/certkey.pem";
  certificate_authorities_dir = "/path/to/cas";
  ams_token = "sometoken";
  ams_host = "localhost";
  ams_port = 8080;
  verify_ssl = true;
  trust_unknown_cas = false;
  skip_subs_load = true;
}
