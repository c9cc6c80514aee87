-- ===== src/Push/Mock/Empty.antt =====
-- push/worker.go and consumers/mock.go: the mock consumer for a subscription without messages.
use ams_push_server.Base.{
  ℕ, String, ◌==◌, ◌≡◌, ap, ◌∙◌, false, [], Option, none, Go, returns, panics, go_bind, eqb, ◌⊎◌,
  append, Bool-cases, inl, inr,
}
use ams_push_server.Environment.{Environment}
use ams_push_server.Proto
use ams_push_server.Ams.Types.{ReceivedMessagesList, last}
use ams_push_server.Consumers.Mock.{MockConsumer}
use ams_push_server.Consumers.Mock.Laws.{consume-empty}
use ams_push_server.Senders.Mock as SenderMock
use ams_push_server.Senders.Mock.{MockSender}
use ams_push_server.Senders.Mock.Laws.{send_single_empty, send-multiple}
use ams_push_server.Senders.Types.{determine_message_format}
use ams_push_server.Push.{Worker, Pushed, push, consumed, deliver, sent, push_msgs_of}
use ams_push_server.Push.Mock.{MockWorld, mock_worker, with_sender}

module _ (env : Environment) (now stamp : String) (cfg : Proto.PushConfig) (w : Worker MockWorld)
    (c : MockConsumer) (s : MockSender) (fine : (s.send_status == "error_send") ≡ false) where
  nothing_received : ReceivedMessagesList
  nothing_received = record { rec_msgs = [] }

  -- Sending no messages panics in the single format, and changes nothing that counts in the other.
  send_nothing :
      (n : ℕ)
      → (SenderMock.send s (record { messages = [] }) (determine_message_format n) ≡ panics)
        ⊎ ((s' : MockSender) × (SenderMock.send s
                (record { messages = [] })
                (determine_message_format n)
              ≡ returns (none, s')))
  unfolding determine_message_format
  send_nothing n = elim (Bool-cases (eqb n 1)) [
    | inl one ↦ inl (rw one (send_single_empty s fine))
    | inr many ↦ inr (
      record s { push_messages = append s.push_messages [] },
      rw many (send-multiple s fine (record { messages = [] })),
    )
  ]

  abbrev world : MockWorld
  world = record { consumer = c; sender = s }

  abbrev then_sent : Go (Option String × MockSender) → Go (Pushed MockWorld)
  then_sent g =
      go_bind (go_bind g (with_sender world))
        (sent env.base64_decode now (mock_worker env stamp c cfg w) (record { rec_msgs = [] }))

  then_sent-panics :
      (g : Go (Option String × MockSender))
      → (g ≡ panics) ⊎ ((s' : MockSender) × (g ≡ returns (none, s')))
      → then_sent g ≡ panics
  unfolding sent last
  then_sent-panics g (inl e) = ap then_sent e
  then_sent-panics g (inr (s', e)) = ap then_sent e

  -- The mock consumer returns an empty list where the consumer of the messaging service returns an
  -- error, and the cycle of a worker whose sender does not fail then panics, for every number of
  -- messages.
  pub empty_mock_panics :
      c.sub_status ≡ "empty_sub"
      → push env.base64_decode now (mock_worker env stamp c cfg w) world ≡ panics
  unfolding push consumed deliver push_msgs_of
  empty_mock_panics e =
      ap
        (λ r.
          consumed env.base64_decode now (mock_worker env stamp c cfg w) cfg
            (r.0, record { consumer = r.1; sender = s }))
        (consume-empty env stamp c cfg.max_messages e)
      ∙ then_sent-panics _ (send_nothing cfg.max_messages)
