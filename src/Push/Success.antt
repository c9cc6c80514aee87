-- ===== src/Push/Success.antt =====
-- push/worker.go: a cycle in which every call succeeds.
use ams_push_server.Base.{String, ◌≡◌, none, some, Result, ok, returns, refl}
use ams_push_server.Proto
use ams_push_server.Ams.Types.{ReceivedMessage, ReceivedMessagesList, last}
use ams_push_server.Senders.{Sender}
use ams_push_server.Senders.Types.{determine_message_format}
use ams_push_server.Push.{Worker, push, consumed, deliver, sent, acknowledged, push_msgs_of}

module _ {W : Type 0} (base64_decode : String → Result String String) (now : String) where
  -- If messages are received and sent, and the last one is acknowledged, the error is cleared.
  pub push-succeeds :
      (w : Worker W) (world v1 v2 v3 : W) {cfg : Proto.PushConfig} {s : Sender W}
      {rml : ReceivedMessagesList} {rm : ReceivedMessage}
      → w.sub.push_config ≡ some cfg
      → w.sender ≡ some s
      → w.consumer.consume cfg.max_messages world ≡ (ok rml, v1)
      → s.send (push_msgs_of base64_decode w cfg rml) (determine_message_format cfg.max_messages) v1
        ≡ returns (none, v2)
      → last rml ≡ returns rm
      → w.consumer.ack rm.ack_id v2 ≡ (none, v3)
      → push base64_decode now w world
        ≡ returns (record { worker = record w { push_err = "" }; world = v3; signal = none })
  unfolding push consumed deliver sent acknowledged
  push-succeeds w world v1 v2 v3 config_is sender_is received is_sent is_last is_acked =
      rw (config_is, received, sender_is, is_sent, is_last, is_acked) refl
