-- ===== src/Senders/Mock.antt =====
-- senders/mock.go: the sender of the tests, which keeps what it is given.
pub mod Laws
pub mod Destinations
use ams_push_server.Base.{
  String, ◌==◌, Bool, List, [], ◌∷◌, append, Option, none, some, Go, returns, panics, if◌then◌else◌,
}
use ams_push_server.Environment.{Environment, HttpRequest, HttpResponse}
use ams_push_server.Senders.Types.{
  PushMsg, PushMsgs, PushMessageFormat, MattermostMessage, single_message_format,
  multiple_message_format,
}

pub record MockSender : Type 0 where
  pub send_status : String
  pub push_messages : List PushMsg

-- func (s *MockSender) Destination()
abbrev pub destination : String
destination = "mock destination"

keep : MockSender → PushMsg → MockSender
keep s m = record s { push_messages = append s.push_messages (m ∷ []) }

keep_first : MockSender → List PushMsg → Go MockSender
unfolding keep
keep_first s [] = panics
keep_first s (m ∷ ms) = returns (keep s m)

-- The loop over the messages.
keep_all : MockSender → List PushMsg → MockSender
unfolding keep
keep_all s [] = s
keep_all s (m ∷ ms) = keep_all (keep s m) ms

kept : Go MockSender → Go (Option String × MockSender)
kept (returns s) = returns (none, s)
kept panics = panics

-- func (s *MockSender) Send(...)
unfoldable pub send : MockSender → PushMsgs → PushMessageFormat → Go (Option String × MockSender)
unfolding keep_first keep_all kept
send s msgs format =
    if s.send_status == "error_send"
    then returns (some "error while sending", s)
    else if format == single_message_format
    then kept (keep_first s msgs.messages)
    else if format == multiple_message_format
    then returns (none, keep_all s msgs.messages)
    else returns (none, s)
