-- ===== src/Senders/Types.antt =====
-- senders/sender.go and mattermostsender.go: what is sent to the remote destinations.
use ams_push_server.Base.{
  ◌≡◌, ◌≢◌, arith, eqb_iff, ℕ, String, ◌++◌, ◌==◌, not, List, eqb, if◌then◌else◌,
}
use ams_push_server.Ams.Types.{Message}

pub record PushMsg : Type 0 where
  pub msg : Message
  pub sub : String

pub record PushMsgs : Type 0 where
  pub messages : List PushMsg

-- type pushMessageFormat string
abbrev pub PushMessageFormat : Type 0
PushMessageFormat = String

abbrev pub single_message_format : PushMessageFormat
single_message_format = "single"

abbrev pub multiple_message_format : PushMessageFormat
multiple_message_format = "multi"

-- func DetermineMessageFormat(numberOfMessages int64)
unfoldable pub determine_message_format : ℕ → PushMessageFormat
determine_message_format number_of_messages =
    if eqb number_of_messages 1 then single_message_format else multiple_message_format

pub record MattermostMessage : Type 0 where
  pub text : String
  pub username : String
  pub channel : String

pub record MattermostError : Type 0 where
  pub id : String
  pub message : String
  pub detailed_error : String
  pub request_id : String
  pub status_code : ℕ

-- func (m *MattermostError) Error()
unfoldable pub error_text : MattermostError → String
error_text m =
    if not (m.detailed_error == "") then (m.message ++ ".") ++ m.detailed_error else m.message

pub determine_message_format-multiple :
    (n : ℕ) → n ≢ 1 → determine_message_format n ≡ multiple_message_format
unfolding determine_message_format
determine_message_format-multiple n ne = ground (arith, eqb_iff n 1)
