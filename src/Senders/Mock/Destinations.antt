-- ===== src/Senders/Mock/Destinations.antt =====
-- senders/mock.go: the http destinations of the tests, as the answer to a request. An answer of `none`
-- is a nil response without an error; the headers of the answers are not read by the program.
use ams_push_server.Base.{ℕ, String, ◌==◌, Option, none, some, Go, returns, panics, if◌then◌else◌}
use ams_push_server.Environment.{Environment, HttpRequest, HttpResponse}
use ams_push_server.Senders.Types.{MattermostMessage}

abbrev response : ℕ → String → HttpResponse
response status_code content = record {
  status_code = status_code;
  body = record { content = content; read_error = none };
}

abbrev internal_error : String
internal_error =
    "{\n\t\t \"error\": {\n\t\t\t\"code\": 500,\n\t\t\t\"message\": \"Internal error\",\n\t\t\t\"status\": \"INTERNAL_ERROR\"\n\t\t }\n\t\t}"

abbrev no_channel_error : String
no_channel_error =
    "{\n    \t\t\t\t\"id\": \"web.incoming_webhook.channel.app_error\",\n    \t\t\t\t\"message\": \"Couldn't find the channel.\",\n    \t\t\t\t\"detailed_error\": \"\",\n    \t\t\t\t\"request_id\": \"3bxwn99zx7dfxdjy5xkoh5xnmo\",\n    \t\t\t\t\"status_code\": 404\n\t\t\t\t}"

pub record MockSenderRoundTripper : Type 0 where
  pub request_body_bytes : String

pub record MockMattermostRoundTripper : Type 0 where
  pub request_body_bytes : String
  pub message : MattermostMessage

-- The path of a request's url is a function of the url; `decode` is json.Unmarshal into a message, as
-- the message after it, from the one before it.
module _ (env : Environment) (path_of : String → String)
    (decode : String → MattermostMessage → MattermostMessage) where
  -- r.Header.Get(key)
  get_header : String → HttpRequest → String
  get_header key r = elim (r.header (env.canonical_header_key key)) [ none ↦ "" | some v ↦ v ]

  -- An answer without a body, for the right authorization only.
  answer_if : String → ℕ → HttpRequest → Option HttpResponse
  unfolding get_header
  answer_if authorization status_code r =
      if get_header "authorization" r == authorization then some (response status_code "") else none

  -- The switch of `MockSenderRoundTripper.RoundTrip`.
  unfoldable pub sender_response : HttpRequest → Option HttpResponse
  unfolding answer_if
  sender_response r =
      if path_of r.url == "/receive_here_200"
      then answer_if "auth-header-1" 200 r
      else if path_of r.url == "/receive_here_201"
      then answer_if "" 201 r
      else if path_of r.url == "/receive_here_204"
      then answer_if "auth-header-1" 204 r
      else if path_of r.url == "/receive_here_102"
      then answer_if "auth-header-1" 102 r
      else if path_of r.url == "/receive_here_error"
      then some (response 500 internal_error)
      else none

  -- func (m *MockSenderRoundTripper) RoundTrip(r *http.Request): reading a body that is nil panics.
  sender_round_trip :
      MockSenderRoundTripper → HttpRequest → Go (Option HttpResponse × MockSenderRoundTripper)
  unfolding sender_response
  sender_round_trip m r = elim r.body [
    | none ↦ panics
    | some b ↦ returns (sender_response r, record m { request_body_bytes = b })
  ]

  -- The switch of `MockMattermostRoundTripper.RoundTrip`, its answers.
  unfoldable pub mattermost_response : String → Option HttpResponse
  mattermost_response path =
      if path == "/webhook"
      then some (response 200 "ok")
      else if path == "/mattermost-error"
      then some (response 404 no_channel_error)
      else if path == "/generic-error"
      then some (response 500 "generic-error")
      else none

  -- The message is decoded only for the first path of the switch.
  received : String → String → MockMattermostRoundTripper → MockMattermostRoundTripper
  received path b m =
      if path == "/webhook"
      then record m { request_body_bytes = b; message = decode b m.message }
      else record m { request_body_bytes = b }

  -- func (m *MockMattermostRoundTripper) RoundTrip(r *http.Request)
  mattermost_round_trip :
      MockMattermostRoundTripper
      → HttpRequest
      → Go (Option HttpResponse × MockMattermostRoundTripper)
  unfolding mattermost_response received
  mattermost_round_trip m r = elim r.body [
    | none ↦ panics
    | some b ↦ returns (mattermost_response (path_of r.url), received (path_of r.url) b m)
  ]
