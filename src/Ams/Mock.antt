-- ===== src/Ams/Mock.antt =====
-- pkg/ams/v1/mock.go: the messaging service of the tests, as the answer to a request. An answer of
-- `none` is a nil response without an error; the headers of the answers are not read by the program.
use ams_push_server.Base.{
  ℕ, String, ◌==◌, true, false, [], ◌∷◌, Option, none, some, ok, err, Go, returns, panics,
  if◌then◌else◌,
}
use ams_push_server.Environment.{
  Environment, HttpRequest, HttpResponse, Payload, user_info, ams_subscription,
  received_messages_list,
}
use ams_push_server.Ams.Types.{
  ReceivedMessagesList, Subscription, PushConfig, UserInfo, http_endpoint_push_config,
  mattermost_push_config,
}

abbrev pub response : ℕ → String → HttpResponse
response status_code content = record {
  status_code = status_code;
  body = record { content = content; read_error = none };
}

-- A push configuration with no field set.
abbrev pub no_push_config : PushConfig
no_push_config = record {
  type = "";
  pend = "";
  authorization_header = record { value = "" };
  max_messages = 0;
  ret_pol = record { policy_type = ""; period = 0 };
  mattermost_url = "";
  mattermost_username = "";
  mattermost_channel = "";
  base64_decode = false;
}

abbrev pub mock_user : UserInfo
mock_user = record {
  name = "worker";
  projects =
      (record { project = "push1"; subscriptions = "sub1" ∷ "errorsub" ∷ [] })
      ∷ (record { project = "push2"; subscriptions = "sub3" ∷ "sub4" ∷ "sub5" ∷ [] })
      ∷ [];
}

abbrev pub mock_sub1 : Subscription
mock_sub1 = record {
  full_name = "/projects/push1/subscriptions/sub1";
  full_topic = "/projects/push1/topics/t1";
  push_cfg = record no_push_config {
    type = http_endpoint_push_config;
    pend = "example.com:9999";
    authorization_header = record { value = "auth-header-1" };
    ret_pol = record { policy_type = "linear"; period = 300 };
    base64_decode = true;
  };
}

abbrev pub mock_sub3 : Subscription
mock_sub3 = record {
  full_name = "/projects/push2/subscriptions/sub3";
  full_topic = "/projects/push2/topics/t1";
  push_cfg = no_push_config;
}

abbrev pub mock_sub4 : Subscription
mock_sub4 = record {
  full_name = "/projects/push2/subscriptions/sub4";
  full_topic = "/projects/push2/topics/t1";
  push_cfg = record no_push_config {
    type = http_endpoint_push_config;
    pend = "example.com:9999";
    ret_pol = record { policy_type = "linear"; period = 300 };
  };
}

abbrev pub mock_sub5 : Subscription
mock_sub5 = record {
  full_name = "/projects/push2/subscriptions/sub5";
  full_topic = "/projects/push2/topics/t1";
  push_cfg = record no_push_config {
    type = mattermost_push_config;
    ret_pol = record { policy_type = "linear"; period = 300 };
    mattermost_channel = "channel";
    mattermost_username = "mattermost";
    mattermost_url = "webhook.com";
  };
}

abbrev pub mock_messages : ReceivedMessagesList
mock_messages = record {
  rec_msgs =
      (record {
        ack_id = "some_ack_id";
        msg = record { id = "some_id"; attr = []; content = "some_data"; pub_time = "" };
      })
      ∷ [];
}

abbrev pub no_messages : ReceivedMessagesList
no_messages = record { rec_msgs = [] }

abbrev internal_error : String
internal_error =
    "{\n\t\t \"error\": {\n\t\t\t\"code\": 500,\n\t\t\t\"message\": \"Internal error\",\n\t\t\t\"status\": \"INTERNAL_ERROR\"\n\t\t }\n\t\t}"

abbrev no_project_error : String
no_project_error =
    "{\n\t\t \"error\": {\n\t\t\t\"code\": 404,\n\t\t\t\"message\": \"project doesn't exist\",\n\t\t\t\"status\": \"NOT_FOUND\"\n\t\t }\n\t\t}"

abbrev no_subscription_error : String
no_subscription_error =
    "{\n\t\t \"error\": {\n\t\t\t\"code\": 404,\n\t\t\t\"message\": \"Subscription doesn't exist\",\n\t\t\t\"status\": \"NOT_FOUND\"\n\t\t } \n\t\t}"

abbrev ack_timeout_error : String
ack_timeout_error =
    "{\n\t\t \"error\": {\n\t\t\t\"code\": 408,\n\t\t\t\"message\": \"ack timeout\",\n\t\t\t\"status\": \"TIMEOUT\"\n\t\t }\n\t\t}"

-- The default of the switch.
abbrev unexpected_outcome : HttpResponse
unexpected_outcome = response 500 "unexpected outcome"

-- The path of a request's url is a function of the url.
module _ (env : Environment) (path_of : String → String) where
  -- b, _ := json.Marshal(v): the error is dropped.
  unfoldable pub json : Payload → String
  json p = elim (env.marshal p) [ ok b ↦ b | err e ↦ "" ]

  -- The switch of `MockAmsRoundTripper.RoundTrip`.
  unfoldable pub ams_response : String → HttpResponse
  unfolding json
  ams_response path =
      if path == "/v1/users:byToken/sometoken"
      then response 200 (json (user_info mock_user))
      else if path == "/v1/users:byToken/errortoken"
      then response 500 "server internal error"
      else if path == "/v1/projects/push1/subscriptions/sub1"
      then response 200 (json (ams_subscription mock_sub1))
      else if path == "/v1/projects/push2/subscriptions/sub5"
      then response 200 (json (ams_subscription mock_sub5))
      else if path == "/v1/projects/push1/subscriptions/errorsub"
      then response 500 "server internal error"
      else if path == "/v1/projects/push2/subscriptions/sub3"
      then response 200 (json (ams_subscription mock_sub3))
      else if path == "/v1/projects/push2/subscriptions/sub4"
      then response 200 (json (ams_subscription mock_sub4))
      else unexpected_outcome

  -- func (m *MockAmsRoundTripper) RoundTrip(r *http.Request)
  unfoldable pub ams_round_trip : HttpRequest → Option HttpResponse
  unfolding ams_response
  ams_round_trip r = some (ams_response (path_of r.url))

  -- The switch of `MockConsumeRoundTripper.RoundTrip`.
  consume_response : String → Option HttpResponse
  unfolding json
  consume_response path =
      if path == "/v1/normal_sub:pull"
      then some (response 200 (json (received_messages_list mock_messages)))
      else if path == "/v1/empty_sub:pull"
      then some (response 200 (json (received_messages_list no_messages)))
      else if path == "/v1/error_sub:pull"
      then some (response 500 internal_error)
      else if path == "/v1/error_sub_no_project:pull"
      then some (response 404 no_project_error)
      else if path == "/v1/error_sub_no_sub:pull"
      then some (response 404 no_subscription_error)
      else if path == "/v1/normal_sub:acknowledge"
      then some (response 200 "{}")
      else if path == "/v1/timeout_sub:acknowledge"
      then some (response 408 ack_timeout_error)
      else if path == "/v1/normal_sub:modifyPushStatus"
      then some (response 200 "")
      else if path == "/v1/error_sub:modifyPushStatus"
      then some (response 500 internal_error)
      else none

  -- func (m *MockConsumeRoundTripper) RoundTrip(r *http.Request): the body is kept, as the state of
  -- the mock, and reading one that is nil panics.
  unfoldable pub consume_round_trip : HttpRequest → Go (Option HttpResponse × String)
  unfolding consume_response
  consume_round_trip r = elim r.body [
    | none ↦ panics
    | some b ↦ returns (consume_response (path_of r.url), b)
  ]
