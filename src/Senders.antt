-- ===== src/Senders.antt =====
-- senders/sender.go, httpsender.go and mattermostsender.go.
pub mod Types
pub mod Posting
pub mod Delivery
pub mod Configured
pub mod FirstOnly
pub mod Outcomes
pub mod Mock
use ams_push_server.Base.{
  ℕ, String, ◌==◌, Bool, true, false, not, ◌&&◌, List, [], ◌∷◌, Option, none, some, Result, ok, err,
  Go, returns, panics, eqb, if◌then◌else◌,
}
use ams_push_server.Environment.{
  Environment, History, HttpRequest, HttpResponse, push_msg, push_msgs, mattermost_message,
  set_header, new_request, do_request,
}
use ams_push_server.Proto
use ams_push_server.Senders.Types.{
  PushMsg, PushMsgs, PushMessageFormat, single_message_format, multiple_message_format, error_text,
}

-- The interface, over the state `W` that sending changes. `send` returns the error, if any.
pub record Sender (W : Type 0) : Type 0 where
  pub send : PushMsgs → PushMessageFormat → W → Go (Option String × W)
  pub destination : String

pub record HttpSender : Type 0 where
  pub endpoint : String
  pub auth_z_header : String

pub record MattermostSender : Type 0 where
  pub webhook_url : String
  pub username : String
  pub channel : String

abbrev pub application_json : String
application_json = "application/json"

-- func NewHttpSender(endpoint, authz string, client *http.Client)
unfoldable pub new_http_sender : String → String → HttpSender
new_http_sender endpoint authz = record { endpoint = endpoint; auth_z_header = authz }

-- func NewMattermostSender(webhookUrl, username, channel string, client *http.Client)
unfoldable pub new_mattermost_sender : String → String → String → MattermostSender
new_mattermost_sender webhook_url username channel = record {
  webhook_url = webhook_url;
  username = username;
  channel = channel;
}

module _ (env : Environment) where
  -- msgs.Messages[0] of an empty slice panics.
  single_body : List PushMsg → Go (Result String String)
  single_body [] = panics
  single_body (m ∷ ms) = returns (env.marshal (push_msg m))

  -- The bytes to send, `msgB`; for a format that is neither, there are none.
  pub message_body : PushMsgs → PushMessageFormat → Go (Result String String)
  unfolding single_body
  message_body msgs format =
      if format == single_message_format
      then single_body msgs.messages
      else if format == multiple_message_format
      then returns (env.marshal (push_msgs msgs))
      else returns (ok "")

  authorize : HttpSender → HttpRequest → HttpRequest
  authorize s r =
      if not (s.auth_z_header == "") then set_header env "Authorization" s.auth_z_header r else r

  -- The status codes that `Send` takes for a delivery: 200, 201, 204 and 102.
  abbrev pub is_delivered : ℕ → Bool
  is_delivered code =
      not (not (eqb code 200) && (not (eqb code 201) && (not (eqb code 204) && not (eqb code 102))))

  pub http_outcome : Result String HttpResponse → Option String
  http_outcome (err e) = some e
  http_outcome (ok resp) = if is_delivered resp.status_code then none else some resp.body.content

  pub post :
      (HttpRequest → HttpRequest)
      → (Result String HttpResponse → Option String)
      → String
      → Result String String
      → History
      → Option String × History
  post finish outcome url (err e) h = (some e, h)
  post finish outcome url (ok body) h = elim (new_request env "POST" url (some body)) [
    | err e ↦ (some e, h)
    | ok r ↦ let (resp, h') = do_request env (finish r) h in (outcome resp, h')
  ]

  pub finish_http : HttpSender → HttpRequest → HttpRequest
  unfolding authorize
  finish_http s r = authorize s (set_header env "Content-Type" application_json r)

  posted :
      (HttpRequest → HttpRequest)
      → (Result String HttpResponse → Option String)
      → String
      → Go (Result String String)
      → History
      → Go (Option String × History)
  unfolding post
  posted finish outcome url panics h = panics
  posted finish outcome url (returns body) h = returns (post finish outcome url body h)

  -- func (s *HttpSender) Send(...)
  unfoldable pub send_http :
      HttpSender → PushMsgs → PushMessageFormat → History → Go (Option String × History)
  unfolding message_body http_outcome finish_http posted
  send_http s msgs format h =
      posted (finish_http s) http_outcome s.endpoint (message_body msgs format) h

  -- io.ReadAll and json.Unmarshal of the body of a refused request.
  pub mattermost_failure : Option String → String → String
  mattermost_failure (some e) content = e
  mattermost_failure none content = elim (env.unmarshal_mattermost_error content) [
    | err e ↦ content
    | ok m ↦ error_text m
  ]

  pub mattermost_outcome : Result String HttpResponse → Option String
  unfolding mattermost_failure error_text
  mattermost_outcome (err e) = some e
  mattermost_outcome (ok resp) =
      if not (eqb resp.status_code 200)
      then some (mattermost_failure resp.body.read_error resp.body.content)
      else none

  pub finish_mattermost : HttpRequest → HttpRequest
  finish_mattermost r = set_header env "Content-Type" application_json r

  pub mattermost_body : MattermostSender → PushMsg → Result String String
  mattermost_body s m = env.marshal (
      mattermost_message
        (record { text = m.msg.content; username = s.username; channel = s.channel }))

  pub send_messages : MattermostSender → List PushMsg → History → Option String × History
  unfolding mattermost_outcome finish_mattermost mattermost_body post
  send_messages s [] h = (some "no message", h)
  send_messages s (m ∷ ms) h =
      post finish_mattermost mattermost_outcome s.webhook_url (mattermost_body s m) h

  -- func (s *MattermostSender) Send(...): the format is not read
  unfoldable pub send_mattermost :
      MattermostSender → PushMsgs → PushMessageFormat → History → Go (Option String × History)
  unfolding send_messages
  send_mattermost s msgs format h = returns (send_messages s msgs.messages h)

  abbrev pub http_sender : HttpSender → Sender History
  http_sender s = record { send = send_http s; destination = s.endpoint }

  abbrev pub mattermost_sender : MattermostSender → Sender History
  mattermost_sender s = record { send = send_mattermost s; destination = s.webhook_url }

  -- func New(cfg amsPb.PushConfig, client *http.Client): `none` is the nil that comes with the error
  unfoldable pub new : Proto.PushConfig → Option (Sender History)
  unfolding new_http_sender new_mattermost_sender
  new cfg =
      if eqb cfg.type Proto.http_endpoint
      then some (http_sender (new_http_sender cfg.push_endpoint cfg.authorization_header))
      else if eqb cfg.type Proto.mattermost
      then some (
          mattermost_sender (
            new_mattermost_sender cfg.mattermost_url cfg.mattermost_username
              cfg.mattermost_channel))
      else none
