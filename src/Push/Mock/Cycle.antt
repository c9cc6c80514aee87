-- ===== src/Push/Mock/Cycle.antt =====
-- push/worker.go, consumers/mock.go and senders/mock.go: the cycle of a worker between the mocks.
use ams_push_server.Base.{
  ℕ, ◌<◌, zero, suc, String, ◌==◌, ◌≡◌, refl, ap, ◌∙◌, false, [], ◌∷◌, append, map-replicate,
  replicate, last_of, none, ok, returns, go_bind, arith,
}
use ams_push_server.Base.Int64.{sign_bit}
use ams_push_server.Environment.{Environment}
use ams_push_server.Proto
use ams_push_server.Ams.Types.{ReceivedMessagesList, last_lem}
use ams_push_server.Consumers.Mock.{MockConsumer, generated_message, rounds}
use ams_push_server.Consumers.Mock.Laws.{consume-normal, rounds-positive, ack-normal}
use ams_push_server.Senders.Mock as SenderMock
use ams_push_server.Senders.Mock.{MockSender}
use ams_push_server.Senders.Mock.Laws.{send-single, send-multiple}
use ams_push_server.Senders.Types.{
  PushMsg, determine_message_format, determine_message_format-multiple,
}
use ams_push_server.Push.{
  Worker, push, consumed, deliver, sent, acknowledged, push_msgs_of, to_push_msg, message_data,
}
use ams_push_server.Push.Mock.{MockWorld, mock_worker, mock_consumer, mock_sender, with_sender}

last_of-replicate : {A : Type 0} (n : ℕ) (a : A) → last_of a (replicate n a) ≡ a
last_of-replicate zero a = refl
last_of-replicate (suc n) a = last_of-replicate n a

module _ (env : Environment) (now stamp : String) (cfg : Proto.PushConfig) (w : Worker MockWorld)
    (c : MockConsumer) (s : MockSender) where
  -- What is sent for a generated message.
  abbrev pub pushed_message : PushMsg
  pushed_message = record {
    sub = "mock-consumer";
    msg = record {
      id = (generated_message env stamp c).msg.id;
      attr = [];
      content = message_data env.base64_decode cfg.base_64_decode "c29tZSBkYXRh";
      pub_time = stamp;
    };
  }

  push_msgs-replicate :
      (n : ℕ)
      → push_msgs_of env.base64_decode
          (mock_worker env stamp c cfg w)
          cfg
          (record { rec_msgs = replicate n (generated_message env stamp c) })
        ≡ record { messages = replicate n pushed_message }
  unfolding push_msgs_of to_push_msg
  push_msgs-replicate n =
      ap (λ l. record { messages = l }) (map-replicate _ n (generated_message env stamp c))

  module _ (fine : (s.send_status == "error_send") ≡ false) where
    -- In either format the sender keeps every copy.
    send-replicate :
        (n : ℕ)
        → SenderMock.send s
            (record { messages = replicate (suc n) pushed_message })
            (determine_message_format (suc n))
          ≡ returns (
            none,
            record s { push_messages = append s.push_messages (replicate (suc n) pushed_message) },
          )
    unfolding determine_message_format
    send-replicate zero = send-single s fine pushed_message []
    send-replicate (suc n) =
        ap (SenderMock.send s (record { messages = replicate (suc (suc n)) pushed_message }))
          (determine_message_format-multiple (suc (suc n)) (λ e. omega arith))
        ∙ send-multiple s fine (record { messages = replicate (suc (suc n)) pushed_message })

    -- What the mocks hold after a cycle that moved `n` messages.
    abbrev pub moved : ℕ → MockWorld
    moved n = record {
      consumer = record c {
        generated_messages =
            append c.generated_messages (replicate n (generated_message env stamp c));
        ack_messages = append c.ack_messages ((generated_message env stamp c).ack_id ∷ []);
      };
      sender = record s { push_messages = append s.push_messages (replicate n pushed_message) };
    }

    -- The messages that are received, and the mocks after each stage.
    abbrev received : ℕ → ReceivedMessagesList
    received n = record { rec_msgs = replicate n (generated_message env stamp c) }

    abbrev after_consume : ℕ → MockWorld
    after_consume n = record {
      consumer = record c {
        generated_messages =
            append c.generated_messages (replicate n (generated_message env stamp c));
      };
      sender = s;
    }

    abbrev after_send : ℕ → MockWorld
    after_send n = record (after_consume n) {
      sender = record s { push_messages = append s.push_messages (replicate n pushed_message) };
    }

    mock_consume :
        (n : ℕ)
        → rounds cfg.max_messages ≡ n
        → c.sub_status ≡ "normal_sub"
        → (mock_consumer env stamp c).consume cfg.max_messages (record { consumer = c; sender = s })
          ≡ (ok (received n), after_consume n)
    mock_consume n size normal =
        ap (λ r. (r.0, record { consumer = r.1; sender = s }))
          (consume-normal env stamp c cfg.max_messages normal)
        ∙ ap (λ k. (ok (received k), after_consume k)) size

    mock_send :
        (n : ℕ)
        → cfg.max_messages ≡ suc n
        → mock_sender.send
            (push_msgs_of env.base64_decode (mock_worker env stamp c cfg w) cfg (received (suc n)))
            (determine_message_format cfg.max_messages)
            (after_consume (suc n))
          ≡ returns (none, after_send (suc n))
    mock_send n size =
        ap (λ g. go_bind g (with_sender (after_consume (suc n))))
          (ap (λ m. SenderMock.send s m (determine_message_format cfg.max_messages))
              (push_msgs-replicate (suc n))
            ∙ ap
                (λ k.
                  SenderMock.send s (record { messages = replicate (suc n) pushed_message })
                    (determine_message_format k))
                size
            ∙ send-replicate n)
        ∙ refl

    mock_sent :
        (n : ℕ)
        → c.ack_status ≡ "normal_ack"
        → sent env.base64_decode now
            (mock_worker env stamp c cfg w)
            (received (suc n))
            (none, after_send (suc n))
          ≡ returns (record {
            worker = record (mock_worker env stamp c cfg w) { push_err = "" };
            world = moved (suc n);
            signal = none;
          })
    unfolding sent acknowledged
    mock_sent n acks =
        ap
          (λ g. go_bind g λ rm. returns (
            acknowledged env.base64_decode now (mock_worker env stamp c cfg w)
              ((mock_consumer env stamp c).ack rm.ack_id (after_send (suc n)))))
          (last_lem _ (replicate n (generated_message env stamp c))
            ∙ ap returns (last_of-replicate n (generated_message env stamp c)))
        ∙ ap
            (λ a. returns (
              acknowledged env.base64_decode now (mock_worker env stamp c cfg w)
                (a.0, record (after_send (suc n)) { consumer = a.1 })))
            (ack-normal (after_send (suc n)).consumer (generated_message env stamp c).ack_id acks)

    -- With a normal subscription, normal acknowledgements and a sender that does not fail, a cycle for
    -- a positive number n of messages delivers n copies of the generated message, in order and after
    -- what was delivered before, acknowledges its id once, and leaves no error and no signal.
    pub mock_cycle :
        (n : ℕ)
        → cfg.max_messages ≡ suc n
        → suc n < sign_bit
        → c.sub_status ≡ "normal_sub"
        → c.ack_status ≡ "normal_ack"
        → push env.base64_decode now
            (mock_worker env stamp c cfg w)
            (record { consumer = c; sender = s })
          ≡ returns (record {
            worker = record (mock_worker env stamp c cfg w) { push_err = "" };
            world = moved (suc n);
            signal = none;
          })
    unfolding push consumed deliver
    mock_cycle n size small normal acks =
        ap (consumed env.base64_decode now (mock_worker env stamp c cfg w) cfg)
          (mock_consume (suc n) (ap rounds size ∙ rounds-positive n small) normal)
        ∙ ap
            (λ g.
              go_bind g
                (sent env.base64_decode now (mock_worker env stamp c cfg w) (received (suc n))))
            (mock_send n size)
        ∙ mock_sent n acks
