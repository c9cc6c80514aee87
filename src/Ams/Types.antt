-- ===== src/Ams/Types.antt =====
-- pkg/ams/v1: the data of the messaging service, as the client receives and sends it.
use ams_push_server.Base.{
  ◌≡◌, ◌≢◌, refl, ℕ, leb, length, last_of, String, ◌==◌, Bool, not, List, [], ◌∷◌, Go, returns,
  panics,
}

-- message.go. A map that the program only passes on.
abbrev pub Attributes : Type 0
Attributes = List (String × String)

pub record PullOptions : Type 0 where
  pub max_messages : String
  pub return_immediately : String

pub record Message : Type 0 where
  pub id : String
  pub attr : Attributes
  pub content : String
  pub pub_time : String

pub record ReceivedMessage : Type 0 where
  pub ack_id : String
  pub msg : Message

pub record ReceivedMessagesList : Type 0 where
  pub rec_msgs : List ReceivedMessage

-- func (r *ReceivedMessagesList) IsEmpty()
unfoldable pub is_empty : ReceivedMessagesList → Bool
is_empty r = leb (length r.rec_msgs) 0

last_received : List ReceivedMessage → Go ReceivedMessage
last_received [] = panics
last_received (m ∷ ms) = returns (last_of m ms)

-- func (r *ReceivedMessagesList) Last(): the index -1 of an empty slice panics
unfoldable pub last : ReceivedMessagesList → Go ReceivedMessage
unfolding last_received
last r = last_received r.rec_msgs

pub record AckMsgs : Type 0 where
  pub ack_ids : List String

-- subscription.go
abbrev pub http_endpoint_push_config : String
http_endpoint_push_config = "http_endpoint"

abbrev pub mattermost_push_config : String
mattermost_push_config = "mattermost"

pub record AuthorizationHeader : Type 0 where
  pub value : String

pub record RetryPolicy : Type 0 where
  pub policy_type : String
  pub period : ℕ

pub record PushConfig : Type 0 where
  pub type : String
  pub pend : String
  pub authorization_header : AuthorizationHeader
  pub max_messages : ℕ
  pub ret_pol : RetryPolicy
  pub mattermost_url : String
  pub mattermost_username : String
  pub mattermost_channel : String
  pub base64_decode : Bool

pub record Subscription : Type 0 where
  pub full_name : String
  pub full_topic : String
  pub push_cfg : PushConfig

-- func (s *Subscription) IsPushEnabled()
unfoldable pub is_push_enabled : Subscription → Bool
is_push_enabled s = not (s.push_cfg.type == "")

-- user.go
pub record Project : Type 0 where
  pub project : String
  pub subscriptions : List String

pub record UserInfo : Type 0 where
  pub name : String
  pub projects : List Project

last_received-returns :
    (ms : List ReceivedMessage) → ms ≢ [] → (rm : ReceivedMessage) × (last_received ms ≡ returns rm)
unfolding last_received
last_received-returns [] ne = absurd (ne refl)
last_received-returns (m ∷ ms) ne = (last_of m ms, refl)

-- The last message of a list that is not empty can be read.
pub last-returns :
    (r : ReceivedMessagesList) → r.rec_msgs ≢ [] → (rm : ReceivedMessage) × (last r ≡ returns rm)
unfolding last
last-returns r ne = last_received-returns r.rec_msgs ne

pub last_lem :
    (m : ReceivedMessage) (ms : List ReceivedMessage)
    → last (record { rec_msgs = m ∷ ms }) ≡ returns (last_of m ms)
unfolding last last_received
last_lem m ms = refl
