-- ===== src/Proto.antt =====
-- api/v1/grpc/proto/ams.pb.go: the messages of ams.proto that the service reads. A field whose Go
-- type is a pointer to a message is an `Option`, `none` being nil.
use ams_push_server.Base.{ℕ, String, Option, Bool}

-- An open enumeration: a client may send any other number.
abbrev pub PushType : Type 0
PushType = ℕ

abbrev pub http_endpoint : PushType
http_endpoint = 0

abbrev pub mattermost : PushType
mattermost = 1

pub record RetryPolicy : Type 0 where
  pub type : String
  -- a uint32, in milliseconds
  pub period : ℕ

pub record PushConfig : Type 0 where
  pub push_endpoint : String
  -- an int64, as its bit pattern
  pub max_messages : ℕ
  pub retry_policy : Option RetryPolicy
  pub authorization_header : String
  pub type : PushType
  pub mattermost_url : String
  pub mattermost_username : String
  pub mattermost_channel : String
  pub base_64_decode : Bool

pub record Subscription : Type 0 where
  pub full_name : String
  pub full_topic : String
  pub push_config : Option PushConfig

pub record ActivateSubscriptionRequest : Type 0 where
  pub subscription : Option Subscription

pub record DeactivateSubscriptionRequest : Type 0 where
  pub full_name : String

pub record SubscriptionStatusRequest : Type 0 where
  pub full_name : String
