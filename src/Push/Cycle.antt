-- ===== src/Push/Cycle.antt =====
-- push/worker.go: one push cycle of a worker that consumes from the messaging service.
use mathlib.Core.Path.{subst}
use text.Mathlib.TextLemmas.{append-eq-nil_iff}
use ams_push_server.Base.{
  String, eq_iff, ◌≡◌, ◌≢◌, refl, ap, true, [], Option, none, some, Result, ok, err, arith, returns,
  map-ne-nil,
}
use ams_push_server.Environment.{Environment, History}
use ams_push_server.Proto
use ams_push_server.Ams
use ams_push_server.Ams.Types.{ReceivedMessage, ReceivedMessagesList, last, last-returns}
use ams_push_server.Ams.Calls.{Tried, IsPulled, IsAcked}
use ams_push_server.Consumers.{AmsHttpConsumer, ams_http_consumer, consume, ack}
use ams_push_server.Consumers.Laws.{consume-IsPulled, consume-Tried, ack-IsAcked_lem, ack-Tried_lem}
use ams_push_server.Senders.{Sender}
use ams_push_server.Senders.Types.{PushMsgs, PushMessageFormat, determine_message_format}
use ams_push_server.Senders.Posting.{IsPosted}
use ams_push_server.Senders.Delivery.{IsDelivering}
use ams_push_server.Push.{
  Worker, Pushed, push, consumed, consume_failed, sent, acknowledged, push_msgs_of, failure,
}

comma-ne : ◌≢◌ {A = String} ", " ""
comma-ne = ground (arith, eq_iff ", " "")

-- The text of an error is never the empty one, which stands for no error.
failure-ne : (now what error : String) → failure now what error ≢ ""
unfolding failure
failure-ne now what error e = comma-ne (append-eq-nil_iff.0 (append-eq-nil_iff.0 e).0).1

-- A worker as `ActivateSubscription` makes it: the consumer of the messaging service, a sender that
-- is not nil, and a subscription with its configuration; the other fields are those of `w`.
abbrev pub ams_worker :
    Environment
    → AmsHttpConsumer
    → Proto.PushConfig
    → Sender History
    → Worker History
    → Worker History
ams_worker env ahc cfg s w = record w {
  consumer = ams_http_consumer env ahc;
  sender = some s;
  sub = record w.sub { push_config = some cfg };
}

module _ (env : Environment) (ahc : AmsHttpConsumer) (cfg : Proto.PushConfig) (s : Sender History)
    (d : IsDelivering env s) (w : Worker History) where
  -- What is sent to the destination for a list of received messages.
  abbrev pub messages_for : ReceivedMessagesList → PushMsgs
  messages_for rml = push_msgs_of env.base64_decode (ams_worker env ahc cfg s w) cfg rml

  abbrev pub format_used : PushMessageFormat
  format_used = determine_message_format cfg.max_messages

  -- What a cycle that began with the history `h` has sent, and what it leaves.
  pub data IsCycle (h : History) (p : Pushed History) : Type 0 where
    -- At most the pull was sent: no messages were received.
    not_received :
        Tried "POST"
          (Ams.pull_request env ahc.ams_client.message_service ahc.full_sub cfg.max_messages
            true).url
          h
          p.world
        → IsCycle h p
    -- Messages were received and not accepted by the destination: the error is set, and no
    -- acknowledgement was sent.
    not_delivered :
        (rml : ReceivedMessagesList) (h1 : History)
        → IsPulled env ahc.ams_client.message_service ahc.full_sub cfg.max_messages h rml h1
        → Tried "POST" s.destination h1 p.world
        → p.signal ≡ none
        → p.worker.push_err ≢ ""
        → IsCycle h p
    -- Messages were received and accepted by the destination, and then the acknowledgement of the
    -- last message was answered with a 2xx status: there is no error.
    acked :
        (rml : ReceivedMessagesList) (h1 h2 : History) (body : String) (rm : ReceivedMessage)
        → IsPulled env ahc.ams_client.message_service ahc.full_sub cfg.max_messages h rml h1
        → d.encodes (messages_for rml) format_used ≡ ok body
        → IsPosted env s.destination body d.accepts h1 h2
        → last rml ≡ returns rm
        → IsAcked env ahc.ams_client.message_service ahc.full_sub rm.ack_id h2 p.world
        → p.signal ≡ none
        → p.worker.push_err ≡ ""
        → IsCycle h p
    -- Messages were received and accepted by the destination, and at most one acknowledgement, of
    -- the last message, was tried without success: the error is set.
    not_acked :
        (rml : ReceivedMessagesList) (h1 h2 : History) (body : String) (rm : ReceivedMessage)
        → IsPulled env ahc.ams_client.message_service ahc.full_sub cfg.max_messages h rml h1
        → d.encodes (messages_for rml) format_used ≡ ok body
        → IsPosted env s.destination body d.accepts h1 h2
        → last rml ≡ returns rm
        → Tried "POST"
            (Ams.ack_request env ahc.ams_client.message_service ahc.full_sub rm.ack_id).url
            h2
            p.world
        → p.signal ≡ none
        → p.worker.push_err ≢ ""
        → IsCycle h p

  consume_failed-world :
      (now : String) (h : History) (error : String)
      → (consume_failed env.base64_decode now (ams_worker env ahc cfg s w) h error).world ≡ h
  unfolding consume_failed
  consume_failed-world now h error = ground arith

  abbrev AckTried : ReceivedMessage → History → History → Type 0
  AckTried rm =
      Tried "POST" (Ams.ack_request env ahc.ams_client.message_service ahc.full_sub rm.ack_id).url

  acknowledged-IsCycle :
      (now : String) (h h1 h2 : History) (rml : ReceivedMessagesList) (body : String)
      (rm : ReceivedMessage) (a : Option String × History)
      → IsPulled env ahc.ams_client.message_service ahc.full_sub cfg.max_messages h rml h1
      → d.encodes (messages_for rml) format_used ≡ ok body
      → IsPosted env s.destination body d.accepts h1 h2
      → last rml ≡ returns rm
      → ack env ahc rm.ack_id h2 ≡ a
      → AckTried rm h2 a.1
      → IsCycle h (acknowledged env.base64_decode now (ams_worker env ahc cfg s w) a)
  unfolding acknowledged
  acknowledged-IsCycle now h h1 h2 rml body rm (some e, h3) pulled enc post l q t =
      not_acked rml h1 h2 body rm pulled enc post l t refl (failure-ne _ _ _)
  acknowledged-IsCycle now h h1 h2 rml body rm (none, h3) pulled enc post l q t =
      acked rml h1 h2 body rm pulled enc post l (ack-IsAcked_lem env ahc rm.ack_id h2 h3 q) refl
        refl

  returned : {a b : Pushed History} → returns a ≡ returns b → a ≡ b
  returned e = cc

  sent-IsCycle :
      (now : String) (h h1 h2 : History) (rml : ReceivedMessagesList) (e : Option String)
      (p : Pushed History)
      → IsPulled env ahc.ams_client.message_service ahc.full_sub cfg.max_messages h rml h1
      → rml.rec_msgs ≢ []
      → s.send (messages_for rml) format_used h1 ≡ returns (e, h2)
      → sent env.base64_decode now (ams_worker env ahc cfg s w) rml (e, h2) ≡ returns p
      → IsCycle h p
  unfolding sent
  sent-IsCycle now h h1 h2 rml (some e) p pulled ne out q =
      subst (IsCycle h) (returned q)
        (not_delivered rml h1 pulled (d.tries _ _ h1 _ out) refl (failure-ne _ _ _))
  sent-IsCycle now h h1 h2 rml none p pulled ne out q =
      let (rm, l) = last-returns rml ne in
      let (body, enc, post) = d.delivers _ _ h1 h2 out in
      let q' : returns (
            acknowledged env.base64_decode now (ams_worker env ahc cfg s w)
              (ack env ahc rm.ack_id h2))
          ≡ returns p =
        rw l at q in
      subst (IsCycle h) (returned q') (
        acknowledged-IsCycle now h h1 h2 rml body rm _ pulled enc post l refl
          (ack-Tried_lem env ahc rm.ack_id h2))

  messages_for-ne :
      (rml : ReceivedMessagesList) → rml.rec_msgs ≢ [] → (messages_for rml).messages ≢ []
  unfolding push_msgs_of
  messages_for-ne rml ne = map-ne-nil _ rml.rec_msgs ne

  consumed-IsCycle :
      (now : String) (h : History) (r : Result String ReceivedMessagesList × History)
      (p : Pushed History)
      → consume env ahc cfg.max_messages h ≡ r
      → consumed env.base64_decode now (ams_worker env ahc cfg s w) cfg r ≡ returns p
      → IsCycle h p
  unfolding consumed
  consumed-IsCycle now h (err error, h1) p c q = subst (IsCycle h) (returned q) (
      not_received (
        rw (consume_failed-world now h1 error)
          (subst (Tried "POST" _ h) (ap (λ x. x.1) c) (consume-Tried env ahc cfg.max_messages h))))
  consumed-IsCycle now h (ok rml, h1) p c q =
      let (pulled, ne) = consume-IsPulled env ahc cfg.max_messages h h1 rml c in
      let (r, out) = d.total (messages_for rml) format_used h1 (messages_for-ne rml ne) in
      let q' : sent env.base64_decode now (ams_worker env ahc cfg s w) rml r ≡ returns p =
        rw out at q in
      sent-IsCycle now h h1 r.1 rml r.0 p pulled ne out q'

  -- Every cycle that returns, of a worker that consumes from the messaging service and whose sender
  -- meets `IsDelivering`, sends, in this order, a pull, a request to the destination and an
  -- acknowledgement, each at most once and each only after the one before it has succeeded:
  -- `IsCycle` lists the four ways in which it may end.
  pub push-IsCycle :
      (now : String) (h : History) (p : Pushed History)
      → push env.base64_decode now (ams_worker env ahc cfg s w) h ≡ returns p
      → IsCycle h p
  unfolding push
  push-IsCycle now h p q = consumed-IsCycle now h _ p refl q

  sent-returns :
      (now : String) (rml : ReceivedMessagesList) (r : Option String × History)
      → rml.rec_msgs ≢ []
      → (p : Pushed History) × (sent env.base64_decode now (ams_worker env ahc cfg s w) rml r
          ≡ returns p)
  unfolding sent
  sent-returns now rml (some e, h) ne = (_, refl)
  sent-returns now rml (none, h) ne = let (rm, l) = last-returns rml ne in rw l (_, refl)

  consumed-returns :
      (now : String) (h : History) (r : Result String ReceivedMessagesList × History)
      → consume env ahc cfg.max_messages h ≡ r
      → (p : Pushed History) × (consumed env.base64_decode now (ams_worker env ahc cfg s w) cfg r
          ≡ returns p)
  unfolding consumed
  consumed-returns now h (err error, h1) c = (_, refl)
  consumed-returns now h (ok rml, h1) c =
      let (pulled, ne) = consume-IsPulled env ahc cfg.max_messages h h1 rml c in
      let (r, out) = d.total (messages_for rml) format_used h1 (messages_for-ne rml ne) in
      rw out (sent-returns now rml r ne)

  -- Every cycle of a worker that consumes from the messaging service and whose sender meets
  -- `IsDelivering` returns, whatever the service and the destination answer: neither the nil
  -- pointers nor the empty slices on the way are read.
  pub push-returns :
      (now : String) (h : History)
      → (p : Pushed History) × (push env.base64_decode now (ams_worker env ahc cfg s w) h
          ≡ returns p)
  unfolding push
  push-returns now h = consumed-returns now h _ refl
