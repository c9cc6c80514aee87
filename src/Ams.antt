-- ===== src/Ams.antt =====
-- pkg/ams/v1: client.go, message.go, subscription.go and user.go. The http client is the
-- environment; what each call has sent is in the history.
pub mod Types
pub mod Calls
pub mod Answered
pub mod Growth
pub mod Mock
use ams_push_server.Base.{
  ℕ, String, ◌++◌, Bool, true, false, ◌||◌, List, [], ◌∷◌, Option, none, some, Result, ok, err, ltb,
  leb, if◌then◌else◌,
}
use ams_push_server.Environment.{
  Environment, History, HttpRequest, HttpResponse, Payload, pull_options, ack_msgs, set_header,
  new_request, do_request,
}
use ams_push_server.Ams.Types.{ReceivedMessagesList, Subscription, UserInfo}

pub record AmsBaseInfo : Type 0 where
  pub scheme : String
  pub host : String
  pub headers : List (String × String)

pub record UserService : Type 0 where
  pub info : AmsBaseInfo

pub record SubscriptionService : Type 0 where
  pub info : AmsBaseInfo

pub record MessageService : Type 0 where
  pub info : AmsBaseInfo

pub record Client : Type 0 where
  pub user_service : UserService
  pub subscription_service : SubscriptionService
  pub message_service : MessageService

new_user_service : AmsBaseInfo → UserService
new_user_service i = record { info = i }

new_subscription_service : AmsBaseInfo → SubscriptionService
new_subscription_service i = record { info = i }

new_message_service : AmsBaseInfo → MessageService
new_message_service i = record { info = i }

base_info : (ℕ → String) → String → String → String → ℕ → AmsBaseInfo
base_info format_int scheme host token port = record {
  scheme = scheme;
  host = (host ++ ":") ++ format_int port;
  headers = ("Content-type", "application/json") ∷ ("x-api-key", token) ∷ [];
}

-- func NewClient(scheme, host, token string, port int, client *http.Client)
unfoldable pub new_client : Environment → String → String → String → ℕ → Client
unfolding base_info new_user_service new_subscription_service new_message_service
new_client env scheme host token port =
    let info = base_info env.format_int scheme host token port in
    record {
      user_service = new_user_service info;
      subscription_service = new_subscription_service info;
      message_service = new_message_service info;
    }

-- func (c *Client) Host()
unfoldable pub host : Client → String
host c = c.user_service.info.host

-- The paths of the api, with the name of a subscription or a token.
abbrev pub pull_message_path : String → String
pull_message_path subscription = ("/v1" ++ subscription) ++ ":pull"

abbrev pub ack_message_path : String → String
ack_message_path subscription = ("/v1" ++ subscription) ++ ":acknowledge"

abbrev pub get_subscription_path : String → String
get_subscription_path subscription = "/v1" ++ subscription

abbrev pub get_user_by_token_path : String → String
get_user_by_token_path token = "/v1/users:byToken/" ++ token

pub record AmsRequest : Type 0 where
  pub method : String
  pub url : String
  pub body : Option Payload
  pub headers : List (String × String)

module _ (env : Environment) where
  -- A failed encoding is ignored, and the body is empty.
  encoded : Result String String → String
  encoded (ok b) = b
  encoded (err e) = ""

  -- func (a *AmsRequest) marshalRequestBody()
  pub marshal_request_body : Option Payload → Option String
  unfolding encoded
  marshal_request_body none = none
  marshal_request_body (some p) = some (encoded (env.marshal p))

  -- Go ranges over the headers in any order; their two keys differ.
  pub set_headers : List (String × String) → HttpRequest → HttpRequest
  set_headers [] r = r
  set_headers ((k, v) ∷ rest) r = set_headers rest (set_header env k v r)

  -- The test on the status code; the text of any other response is the error.
  pub check_status : Result String HttpResponse → Result String HttpResponse
  check_status (err e) = err e
  check_status (ok resp) =
      if ltb resp.status_code 200 || leb 300 resp.status_code
      then err resp.body.content
      else ok resp

  send_request :
      List (String × String)
      → Result String HttpRequest
      → History
      → Result String HttpResponse × History
  unfolding check_status set_headers
  send_request headers (err e) h = (err e, h)
  send_request headers (ok r) h =
      let (resp, h') = do_request env (set_headers headers r) h in (check_status resp, h')

  -- func (a *AmsRequest) execute()
  pub execute : AmsRequest → History → Result String HttpResponse × History
  unfolding marshal_request_body send_request
  execute a h =
      send_request a.headers (new_request env a.method a.url (marshal_request_body a.body)) h

  pub pull_request : MessageService → String → ℕ → Bool → AmsRequest
  pull_request s subscription number_of_messages return_immediately = record {
    method = "POST";
    url = env.url_string s.info.scheme s.info.host (pull_message_path subscription);
    body = some (
        pull_options (record {
          max_messages = env.format_int number_of_messages;
          return_immediately = if return_immediately then "true" else "false";
        }));
    headers = s.info.headers;
  }

  decoded {ℓ} :
      {A : Type ℓ}
      → (HttpResponse → Result String A)
      → Result String HttpResponse × History
      → Result String A × History
  decoded decode (err e, h) = (err e, h)
  decoded decode (ok resp, h) = (decode resp, h)

  -- func (s *MessageService) Pull(...)
  unfoldable pub pull :
      MessageService → String → ℕ → Bool → History → Result String ReceivedMessagesList × History
  unfolding pull_request decoded execute
  pull s subscription number_of_messages return_immediately h =
      decoded (λ resp. env.decode_messages resp.body)
        (execute (pull_request s subscription number_of_messages return_immediately) h)

  pub ack_request : MessageService → String → String → AmsRequest
  ack_request s subscription ack_id = record {
    method = "POST";
    url = env.url_string s.info.scheme s.info.host (ack_message_path subscription);
    body = some (ack_msgs (record { ack_ids = ack_id ∷ [] }));
    headers = s.info.headers;
  }

  error_of : Result String HttpResponse × History → Option String × History
  error_of (err e, h) = (some e, h)
  error_of (ok resp, h) = (none, h)

  -- func (s *MessageService) Ack(...): the error, if any
  unfoldable pub ack : MessageService → String → String → History → Option String × History
  unfolding ack_request error_of execute
  ack s subscription ack_id h = error_of (execute (ack_request s subscription ack_id) h)

  unfoldable pub get_request : AmsBaseInfo → String → AmsRequest
  get_request info path = record {
    method = "GET";
    url = env.url_string info.scheme info.host path;
    body = none;
    headers = info.headers;
  }

  -- func (s *SubscriptionService) GetSubscription(...)
  unfoldable pub get_subscription :
      SubscriptionService → String → History → Result String Subscription × History
  unfolding get_request decoded execute
  get_subscription s subscription h =
      decoded (λ resp. env.decode_subscription resp.body)
        (execute (get_request s.info (get_subscription_path subscription)) h)

  -- func (us *UserService) GetUserByToken(...)
  unfoldable pub get_user_by_token :
      UserService → String → History → Result String UserInfo × History
  unfolding get_request decoded execute
  get_user_by_token us token h =
      decoded (λ resp. env.decode_user resp.body)
        (execute (get_request us.info (get_user_by_token_path token)) h)
