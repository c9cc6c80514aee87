-- ===== src/Push/NilSender.antt =====
-- push/worker.go: a worker whose sender is nil.
use ams_push_server.Base.{String, ◌≡◌, ap, ◌∙◌, none, some, Result, ok, panics, go_bind, deref}
use ams_push_server.Proto
use ams_push_server.Ams.Types.{ReceivedMessagesList}
use ams_push_server.Senders.{Sender}
use ams_push_server.Senders.Types.{determine_message_format}
use ams_push_server.Push.{Worker, push, consumed, deliver, sent, push_msgs_of}

-- The first cycle in which it receives messages panics.
pub nil_sender_panics :
    {W : Type 0} (base64_decode : String → Result String String) (now : String) (w : Worker W)
    (world world' : W) {cfg : Proto.PushConfig} {rml : ReceivedMessagesList}
    → w.sub.push_config ≡ some cfg
    → w.sender ≡ none
    → w.consumer.consume cfg.max_messages world ≡ (ok rml, world')
    → push base64_decode now w world ≡ panics
unfolding push consumed deliver
nil_sender_panics base64_decode now w world world' {cfg} {rml} configured nil received =
    ap
      (λ o.
        go_bind (deref o)
          λ c. consumed base64_decode now w c (w.consumer.consume c.max_messages world))
      configured
    ∙ ap (consumed base64_decode now w cfg) received
    ∙ ap
        (λ o. go_bind (deref o) λ (s : Sender _).
          go_bind
            (s.send (push_msgs_of base64_decode w cfg rml)
              (determine_message_format cfg.max_messages) world')
            (sent base64_decode now w rml))
        nil
