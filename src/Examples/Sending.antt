-- ===== src/Examples/Sending.antt =====
-- senders/httpsender.go, mattermostsender.go: the theorems on the outcomes of sending, for one message.
use ams_push_server.Base.{
  String, ◌≡◌, ◌⊎◌, List, [], ◌∷◌, Option, some, Result, returns, eqb, ◌==◌, if◌then◌else◌,
}
use ams_push_server.Environment.{Environment, History, with_transport}
use ams_push_server.Senders.Types.{PushMsg, PushMsgs, multiple_message_format}
use ams_push_server.Senders.{
  HttpSender, MattermostSender, send_http, send_mattermost, message_body, mattermost_body,
  finish_http, finish_mattermost,
}
use ams_push_server.Senders.Posting.{is_http_success}
use ams_push_server.Senders.Mock.Destinations.{sender_response, mattermost_response}
use ams_push_server.Senders.Outcomes.{
  IsSendOutcome, IsBody, IsReason, send_http-IsSendOutcome, send_mattermost-IsSendOutcome,
}
use ams_push_server.Examples.{example_env}

abbrev greeting : PushMsg
greeting = record {
  sub = "/projects/p/subscriptions/s";
  msg = record { id = "7"; attr = []; content = "hello"; pub_time = "now" };
}

abbrev greetings : PushMsgs
greetings = record { messages = greeting ∷ greeting ∷ [] }

-- The path of a url of the tests.
abbrev path_of : String → String
path_of url =
    if url == "https://example.com:8080/receive_here_200"
    then "/receive_here_200"
    else if url == "https://example.com:8080/mattermost-error"
    then "/mattermost-error"
    else ""

-- The environment with the destinations of the tests.
abbrev tested : Environment
tested = with_transport (sender_response example_env path_of (λ b m. m)) "nil response" example_env

abbrev chat : Environment
chat =
    with_transport (λ r. mattermost_response example_env path_of (λ b m. m) (path_of r.url))
      "nil response" example_env

abbrev tester : HttpSender
tester = record {
  endpoint = "https://example.com:8080/receive_here_200";
  auth_z_header = "auth-header-1";
}

send_http-IsSendOutcome_example :
    (b : Result String String) × (x : Option String × History) × (message_body tested greetings
        multiple_message_format
      ≡ returns b)
    × (send_http tested tester greetings multiple_message_format [] ≡ returns x)
    × IsSendOutcome tested
        (finish_http tested tester)
        "https://example.com:8080/receive_here_200"
        is_http_success
        IsBody
        b
        []
        x
send_http-IsSendOutcome_example =
    send_http-IsSendOutcome tested tester greetings multiple_message_format [] λ e. cc

abbrev poster : MattermostSender
poster = record {
  webhook_url = "https://example.com:8080/mattermost-error";
  username = "push";
  channel = "ops";
}

send_mattermost-IsSendOutcome_example :
    (x : Option String × History) × (send_mattermost chat poster greetings multiple_message_format
        []
      ≡ returns x)
    × (((greetings.messages ≡ []) × (x ≡ (some "no message", [])))
        ⊎ ((m : PushMsg) × (rest : List PushMsg) × (greetings.messages ≡ m ∷ rest)
            × IsSendOutcome chat
                (finish_mattermost chat)
                "https://example.com:8080/mattermost-error"
                (λ code. eqb code 200)
                (IsReason chat)
                (mattermost_body chat poster m)
                []
                x))
send_mattermost-IsSendOutcome_example =
    send_mattermost-IsSendOutcome chat poster greetings multiple_message_format []
