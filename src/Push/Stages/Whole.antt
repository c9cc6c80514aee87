-- ===== src/Push/Stages/Whole.antt =====
-- push/worker.go: the stages of a cycle together.
use ams_push_server.Base.{
  Option-cases, inl, inr, String, ◌≡◌, refl, ap, ◌∙◌, Option, none, some, Result, ok, err, Go,
  returns, panics, go_bind, deref,
}
use ams_push_server.Proto
use ams_push_server.Ams.Types.{ReceivedMessage, ReceivedMessagesList, last}
use ams_push_server.Senders.{Sender}
use ams_push_server.Senders.Types.{determine_message_format}
use ams_push_server.Push.{
  Worker, Pushed, push, consumed, deliver, sent, push_msgs_of, consume_failed, acknowledged,
  failure,
}
use ams_push_server.Push.Loop.{after_push, next_round}
use ams_push_server.Push.Stages.{
  Staged, delivered, settled, fetch, fetched_as, hand_over, sent_as, confirm, go_on, conclude,
  uninterrupted,
}

module _ {W : Type 0} (base64_decode : String → Result String String) (now : String) where
  abbrev done : Go (Pushed W) → Go (Staged W × W)
  done g = go_bind g λ p. returns (settled p)

  abbrev rest : Go (Staged W × W) → Go (Staged W × W)
  rest g = go_bind g λ x. returns (conclude base64_decode now x)

  -- A cycle that has ended stays so.
  conclude-settled : (p : Pushed W) → conclude base64_decode now (settled p) ≡ settled p
  unfolding settled after_push next_round
  conclude-settled p = elim (Option-cases p.signal) [ inl e ↦ rw e refl | inr (ce, e) ↦ rw e refl ]

  go_on-settled : (p : Pushed W) → go_on base64_decode now (settled p) ≡ returns (settled p)
  unfolding settled after_push next_round
  go_on-settled p = elim (Option-cases p.signal) [ inl e ↦ rw e refl | inr (ce, e) ↦ rw e refl ]

  module _ (w : Worker W) (rml : ReceivedMessagesList) where
    with_last :
        (world : W) (l : Go ReceivedMessage)
        → rest (go_bind l λ rm. returns (record { worker = w; stage = delivered rm }, world))
          ≡ done (
              go_bind l
                λ rm. returns (acknowledged base64_decode now w (w.consumer.ack rm.ack_id world)))
    unfolding confirm
    with_last world (returns rm) = refl
    with_last world panics = refl

    with_sent :
        (r : Option String × W)
        → rest (sent_as base64_decode now w rml r) ≡ done (sent base64_decode now w rml r)
    unfolding sent_as sent
    with_sent (some error, world) = ap returns (
        conclude-settled (record {
          worker = record w { push_err = failure now "Could not send message" error };
          world = world;
          signal = none;
        }))
    with_sent (none, world) = with_last world (last rml)

    with_reply :
        (m : Go (Option String × W))
        → rest (go_bind m (sent_as base64_decode now w rml))
          ≡ done (go_bind m (sent base64_decode now w rml))
    with_reply (returns r) = with_sent r
    with_reply panics = refl

    with_sender :
        (cfg : Proto.PushConfig) (world : W) (o : Option (Sender W))
        → rest (
            go_bind (deref o) λ s.
              go_bind
                (s.send
                  (push_msgs_of base64_decode w cfg rml)
                  (determine_message_format cfg.max_messages)
                  world)
                (sent_as base64_decode now w rml))
          ≡ done (
              go_bind (deref o) λ s.
                go_bind
                  (s.send
                    (push_msgs_of base64_decode w cfg rml)
                    (determine_message_format cfg.max_messages)
                    world)
                  (sent base64_decode now w rml))
    with_sender cfg world (some s) = with_reply _
    with_sender cfg world none = refl

    handed :
        (cfg : Proto.PushConfig) (world : W)
        → w.sub.push_config ≡ some cfg
        → rest (hand_over base64_decode now rml w world)
          ≡ done (deliver base64_decode now w cfg rml world)
    unfolding hand_over deliver
    handed cfg world configured =
        ap
          (λ o. rest (
            go_bind (deref o) λ c. go_bind (deref w.sender) λ s.
              go_bind
                (s.send (push_msgs_of base64_decode w c rml)
                  (determine_message_format c.max_messages) world)
                (sent_as base64_decode now w rml)))
          configured
        ∙ with_sender cfg world w.sender

  with_consumed :
      (w : Worker W) (cfg : Proto.PushConfig) (r : Result String ReceivedMessagesList × W)
      → w.sub.push_config ≡ some cfg
      → rest (go_on base64_decode now (fetched_as base64_decode now w r))
        ≡ done (consumed base64_decode now w cfg r)
  unfolding fetched_as consumed
  with_consumed w cfg (err error, world) configured =
      ap rest (go_on-settled (consume_failed base64_decode now w world error))
      ∙ ap returns (conclude-settled (consume_failed base64_decode now w world error))
  with_consumed w cfg (ok rml, world) configured = handed w rml cfg world configured

  with_config :
      (w : Worker W) (world : W) (o : Option Proto.PushConfig)
      → w.sub.push_config ≡ o
      → rest (
          go_bind
            (go_bind (deref o) λ cfg.
              returns (fetched_as base64_decode now w (w.consumer.consume cfg.max_messages world)))
            (go_on base64_decode now))
        ≡ done (
            go_bind
              (deref o)
              λ cfg. consumed base64_decode now w cfg (w.consumer.consume cfg.max_messages world))
  with_config w world none configured = refl
  with_config w world (some cfg) configured = with_consumed w cfg _ configured

  -- The stages of a cycle, with nothing between them, are the cycle: they panic where it panics, and
  -- otherwise leave the worker, the outside and the place in the loop that it leaves.
  pub stages_are_push :
      (w : Worker W) (world : W)
      → uninterrupted base64_decode now w world
        ≡ go_bind (push base64_decode now w world) λ p. returns (settled p)
  unfolding fetch push
  stages_are_push w world = with_config w world w.sub.push_config refl
