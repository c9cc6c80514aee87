-- ===== src/Examples/Chat.antt =====
-- push/worker.go and senders/mattermostsender.go: the theorem on a cycle with two messages.
use ams_push_server.Base.{◌≡◌, refl, [], ◌∷◌, none, some, ok, returns}
use ams_push_server.Environment.{Environment, History}
use ams_push_server.Proto
use ams_push_server.Ams.Types.{ReceivedMessage}
use ams_push_server.Consumers.{ams_http_consumer, consume, ack}
use ams_push_server.Senders.{MattermostSender, mattermost_sender}
use ams_push_server.Senders.FirstOnly.{request_of}
use ams_push_server.Push.{Worker, push}
use ams_push_server.Push.FirstOnly.{mattermost_acks_unsent}
use ams_push_server.Examples.{
  example_env, example_consumer, example_worker, subscription, push_config,
}
use ams_push_server.Examples.Cycles.{ams_call}

abbrev message_one : ReceivedMessage
message_one = record {
  ack_id = "ack-1";
  msg = record { id = "1"; attr = []; content = "hello"; pub_time = "now" };
}

abbrev message_two : ReceivedMessage
message_two = record {
  ack_id = "ack-2";
  msg = record { id = "2"; attr = []; content = "goodbye"; pub_time = "now" };
}

abbrev chatty_env : Environment
chatty_env = record example_env {
  decode_messages = λ body. ok (record { rec_msgs = message_one ∷ message_two ∷ [] });
}

abbrev room : MattermostSender
room = record { webhook_url = "https://chat.example/hook"; username = "ams"; channel = "c" }

abbrev two_at_once : Proto.PushConfig
two_at_once = record push_config { max_messages = 2 }

abbrev chatty : Worker History
chatty = record example_worker {
  sub = record subscription { push_config = some two_at_once };
  consumer = ams_http_consumer chatty_env example_consumer;
  sender = some (mattermost_sender chatty_env room);
}

abbrev pulled : History
pulled = ams_call "pull" ∷ []

mattermost_acks_unsent_example :
    push chatty_env.base64_decode "noon" chatty []
    ≡ returns (record {
      worker = record chatty { push_err = "" };
      world = ams_call "acknowledge" ∷ request_of chatty_env room "{}" ∷ pulled;
      signal = none;
    })
unfolding consume ack
mattermost_acks_unsent_example =
    mattermost_acks_unsent chatty_env room "noon" chatty two_at_once message_one (message_two ∷ [])
      [] pulled (ams_call "acknowledge" ∷ request_of chatty_env room "{}" ∷ pulled) "{}"
      (record { status_code = 200; body = record { content = "{}"; read_error = none } }) refl refl
      refl refl refl refl refl refl
