-- ===== src/Environment.antt =====
-- What the program takes from Go's standard library and from the network, as one parameter.
-- A request that was built and given to the http client is added to the history, newest first. The
-- network answers from the history, so every sequence of answers and failures, timeouts and
-- cancelled contexts among them, is that of some environment.
use ams_push_server.Base.{
  ℕ, String, Dict, assign, empty, List, ◌∷◌, Option, none, some, Result, ok, err,
}
use ams_push_server.Ams.Types.{PullOptions, AckMsgs, ReceivedMessagesList, Subscription, UserInfo}
use ams_push_server.Senders.Types.{PushMsg, PushMsgs, MattermostMessage, MattermostError}

pub record HttpRequest : Type 0 where
  pub method : String
  pub url : String
  pub body : Option String
  pub header : Dict String

-- What reading a body gives, and the error that stops it, if any.
pub record Body : Type 0 where
  pub content : String
  pub read_error : Option String

pub record HttpResponse : Type 0 where
  pub status_code : ℕ
  pub body : Body

-- consumers/amshttpconsumer.go: AmsHttpError and amsErr, the layout of an error of the ams api.
pub record AmsErr : Type 0 where
  pub code : ℕ
  pub message : String
  pub status : String

pub record AmsHttpError : Type 0 where
  pub error : AmsErr

-- What the program encodes as json.
pub data Payload : Type 0 where
  pull_options : PullOptions → Payload
  ack_msgs : AckMsgs → Payload
  push_msg : PushMsg → Payload
  push_msgs : PushMsgs → Payload
  mattermost_message : MattermostMessage → Payload
  user_info : UserInfo → Payload
  ams_subscription : Subscription → Payload
  received_messages_list : ReceivedMessagesList → Payload

abbrev pub History : Type 0
History = List HttpRequest

pub record Environment : Type 0 where
  -- (*url.URL).String() of a scheme, a host and a path
  pub url_string : String → String → String → String
  -- the error of http.NewRequestWithContext for a method and a url
  pub new_request_error : String → String → Option String
  -- the form in which Header.Set keeps a key
  pub canonical_header_key : String → String
  -- (*http.Client).Do
  pub round_trip : History → HttpRequest → Result String HttpResponse
  -- json.Marshal
  pub marshal : Payload → Result String String
  -- json.NewDecoder(body).Decode, for the three types that are decoded from bodies
  pub decode_messages : Body → Result String ReceivedMessagesList
  pub decode_subscription : Body → Result String Subscription
  pub decode_user : Body → Result String UserInfo
  -- json.Unmarshal
  pub unmarshal_ams_error : String → Result String AmsHttpError
  pub unmarshal_mattermost_error : String → Result String MattermostError
  -- strconv.FormatInt in base 10, of the bit pattern of an int64
  pub format_int : ℕ → String
  -- base64.StdEncoding.DecodeString
  pub base64_decode : String → Result String String
  -- the error of url.ParseRequestURI
  pub parse_request_uri_error : String → Option String

-- req.Header.Set(k, v)
abbrev pub set_header : Environment → String → String → HttpRequest → HttpRequest
set_header env k v r = record r { header = assign (env.canonical_header_key k) v r.header }

-- http.NewRequestWithContext
abbrev pub new_request : Environment → String → String → Option String → Result String HttpRequest
new_request env method url body = elim (env.new_request_error method url) [
  | some e ↦ err e
  | none ↦ ok (record { method = method; url = url; body = body; header = empty })
]

-- client.Do(req): the answer, and the history with the request.
abbrev pub do_request : Environment → HttpRequest → History → Result String HttpResponse × History
do_request env r h = (env.round_trip h r, r ∷ h)

-- The same, with an http client whose transport answers each request by itself; for a nil response
-- without an error the client makes an error of its own.
abbrev pub with_transport : (HttpRequest → Option HttpResponse) → String → Environment → Environment
with_transport respond nil_response env = record env {
  round_trip = λ h r. elim (respond r) [ none ↦ err nil_response | some resp ↦ ok resp ];
}
