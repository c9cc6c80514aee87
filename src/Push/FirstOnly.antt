-- ===== src/Push/FirstOnly.antt =====
-- push/worker.go and senders/mattermostsender.go: what a cycle acknowledges that sends to mattermost.
use ams_push_server.Base.{String, ◌≡◌, true, List, ◌∷◌, none, some, ok, eqb, returns, last_of}
use ams_push_server.Environment.{Environment, History, HttpResponse, mattermost_message}
use ams_push_server.Proto
use ams_push_server.Ams.Types.{ReceivedMessage, last_lem}
use ams_push_server.Senders.{MattermostSender, mattermost_sender}
use ams_push_server.Senders.FirstOnly.{request_of, send_mattermost-answered}
use ams_push_server.Push.{Worker, push, message_data, push_msgs_of, to_push_msg}
use ams_push_server.Push.Success.{push-succeeds}

-- A worker receives messages for mattermost, whatever follows the first of them. If the text of the
-- first message is encoded and accepted with the status 200, that one request is all that is sent of
-- the messages; the cycle then acknowledges the last message, and no error is registered.
pub mattermost_acks_unsent :
    (env : Environment) (s : MattermostSender) (now : String) (w : Worker History)
    (cfg : Proto.PushConfig) (m : ReceivedMessage) (ms : List ReceivedMessage) (h h1 h3 : History)
    (body : String) (resp : HttpResponse)
    → w.sub.push_config ≡ some cfg
    → w.sender ≡ some (mattermost_sender env s)
    → w.consumer.consume cfg.max_messages h ≡ (ok (record { rec_msgs = m ∷ ms }), h1)
    → env.marshal (
        mattermost_message (record {
          text = message_data env.base64_decode cfg.base_64_decode m.msg.content;
          username = s.username;
          channel = s.channel;
        }))
      ≡ ok body
    → env.new_request_error "POST" s.webhook_url ≡ none
    → env.round_trip h1 (request_of env s body) ≡ ok resp
    → eqb resp.status_code 200 ≡ true
    → w.consumer.ack (last_of m ms).ack_id (request_of env s body ∷ h1) ≡ (none, h3)
    → push env.base64_decode now w h
      ≡ returns (record { worker = record w { push_err = "" }; world = h3; signal = none })
unfolding push_msgs_of to_push_msg
mattermost_acks_unsent env s now w cfg m ms h h1 h3 body resp config_is sender_is received encoded
      fine answer taken acked =
    push-succeeds env.base64_decode now w h h1 (request_of env s body ∷ h1) h3 config_is sender_is
      received (send_mattermost-answered env s _ _ _ h1 resp encoded fine answer taken)
      (last_lem m ms) acked
