-- ===== src/Examples.antt =====
-- Test data for the theorems: an environment whose network answers every request, a configuration,
-- a subscription, and the workers made for it.
mod Retries
mod Cycles
mod Services
mod Callers
mod Settings
mod Panics
mod Races
mod Sending
mod Starting
mod Interleaving
mod Delivering
mod Ending
mod Chat
mod Registering
use ams_push_server.Base.{
  ℕ, String, ◌++◌, ◌==◌, Bool, true, false, List, [], ◌∷◌, Option, none, some, Result, ok, err,
  if◌then◌else◌,
}
use ams_push_server.Environment.{Environment, History, HttpRequest}
use ams_push_server.Timer.{new_timer}
use ams_push_server.Proto
use ams_push_server.RetryPolicies
use ams_push_server.RetryPolicies.{slow_start_initial_interval}
use ams_push_server.Config.{Config}
use ams_push_server.Ams.{Client, AmsBaseInfo}
use ams_push_server.Ams.Types.{Message, ReceivedMessagesList, Subscription, UserInfo}
use ams_push_server.Consumers.{AmsHttpConsumer, ams_http_consumer}
use ams_push_server.Senders.{HttpSender, http_sender}
use ams_push_server.Push.{Worker}

abbrev pub one_message : ReceivedMessagesList
one_message = record {
  rec_msgs =
      (record {
        ack_id = "ack-7";
        msg = record { id = "7"; attr = []; content = "aGVsbG8="; pub_time = "now" };
      })
      ∷ [];
}

abbrev pub stored_subscription : Subscription
stored_subscription = record {
  full_name = "/projects/p/subscriptions/s";
  full_topic = "/projects/p/topics/t";
  push_cfg = record {
    type = "http_endpoint";
    pend = "https://remote.example/hook";
    authorization_header = record { value = "" };
    max_messages = 1;
    ret_pol = record { policy_type = "slowstart"; period = 0 };
    mattermost_url = "";
    mattermost_username = "";
    mattermost_channel = "";
    base64_decode = false;
  };
}

abbrev pub push_user : UserInfo
push_user = record {
  name = "push";
  projects = (record { project = "p"; subscriptions = "s" ∷ [] }) ∷ [];
}

abbrev pub example_env : Environment
example_env = record {
  url_string = λ scheme host path. scheme ++ host ++ path;
  new_request_error = λ method url. none;
  canonical_header_key = λ key. key;
  round_trip =
      λ h r. ok (record { status_code = 200; body = record { content = "{}"; read_error = none } });
  marshal = λ payload. ok "{}";
  decode_messages = λ body. ok one_message;
  decode_subscription = λ body. ok stored_subscription;
  decode_user = λ body. ok push_user;
  unmarshal_ams_error =
      λ text. ok (record { error = record { code = 404; message = text; status = "NOT_FOUND" } });
  unmarshal_mattermost_error = λ text. err text;
  format_int = λ n. "1";
  base64_decode = λ text. ok text;
  parse_request_uri_error = λ uri. none;
}

abbrev pub example_config : Config
example_config = record {
  bind_ip = "";
  bind_port = 9000;
  certificate = "cert.pem";
  certificate_key = "key.pem";
  certificate_authorities_dir = "/certs";
  ams_token = "token";
  ams_host = "ams.example";
  ams_port = 443;
  verify_ssl = true;
  tls_enabled = true;
  trust_unknown_cas = false;
  log_level = "INFO";
  skip_subs_load = false;
  tls_config = none;
  acl = "client.example" ∷ [];
  syslog_enabled = false;
}

abbrev pub base_info : AmsBaseInfo
base_info = record {
  scheme = "https";
  host = "ams.example:1";
  headers = ("Content-type", "application/json") ∷ ("x-api-key", "token") ∷ [];
}

abbrev pub example_client : Client
example_client = record {
  user_service = record { info = base_info };
  subscription_service = record { info = base_info };
  message_service = record { info = base_info };
}

abbrev pub example_consumer : AmsHttpConsumer
example_consumer = record { full_sub = "/projects/p/subscriptions/s"; ams_client = example_client }

abbrev pub example_sender : HttpSender
example_sender = record { endpoint = "https://remote.example/hook"; auth_z_header = "secret" }

abbrev pub push_config : Proto.PushConfig
push_config = record {
  push_endpoint = "https://remote.example/hook";
  max_messages = 1;
  retry_policy = some (record { type = "slowstart"; period = 0 });
  authorization_header = "secret";
  type = Proto.http_endpoint;
  mattermost_url = "";
  mattermost_username = "";
  mattermost_channel = "";
  base_64_decode = true;
}

abbrev pub subscription : Proto.Subscription
subscription = record {
  full_name = "/projects/p/subscriptions/s";
  full_topic = "/projects/p/topics/t";
  push_config = some push_config;
}

abbrev pub slow_policy : RetryPolicies.Slowstart
slow_policy = record {
  previous_restart_interval = slow_start_initial_interval;
  previous_error = false;
  timer = new_timer slow_start_initial_interval;
}

abbrev pub example_worker : Worker History
example_worker = record {
  sub = subscription;
  consumer = ams_http_consumer example_env example_consumer;
  sender = some (http_sender example_env example_sender);
  cancelled = false;
  retry_policy = RetryPolicies.slowstart slow_policy;
  push_err = "an earlier error";
}
