-- ===== src/Push/Healthy.antt =====
-- push/worker.go: a cycle of a worker whose services answer well.
use mathlib.Core.Path.{subst}
use ams_push_server.Base.{
  ℕ, ◌≤◌, ◌<◌, String, ◌≡◌, ◌≢◌, refl, ap, ◌∙◌, true, [], none, some, ok, returns, go_bind,
  map-ne-nil,
}
use ams_push_server.Environment.{Environment, History, HttpRequest, HttpResponse, Payload}
use ams_push_server.Proto
use ams_push_server.Ams
use ams_push_server.Ams.Answered.{pull-answered, ack-answered}
use ams_push_server.Ams.Growth.{Extends, Extends-trans, Tried-Extends}
use ams_push_server.Ams.Calls.{IsPulled, IsAcked}
use ams_push_server.Ams.Types.{ReceivedMessage, ReceivedMessagesList, last, last-returns}
use ams_push_server.Consumers.{AmsHttpConsumer, ams_http_consumer, consume, ack}
use ams_push_server.Consumers.Laws.{
  consume-received, consume-IsPulled, consume-Tried, ack-done, ack-IsAcked_lem,
}
use ams_push_server.Senders.{HttpSender, http_sender, send_http}
use ams_push_server.Senders.Types.{determine_message_format}
use ams_push_server.Senders.Posting.{IsPosted, is_http_success}
use ams_push_server.Senders.Delivery.{
  http_encodes, send_http-answered, send_http-delivers, send_http-tries,
}
use ams_push_server.Push.{Worker, push, push_msgs_of}
use ams_push_server.Push.Loop.{Loop, timer_of, with_timer, next_round, work, after_push}
use ams_push_server.Push.Success.{push-succeeds}
use ams_push_server.Timer.{drain}

-- Every payload can be encoded, and the three requests of a cycle can be built. Now a pull of `n` messages is answered
-- with some, and from now on the endpoint answers with a status code that is taken for a delivery, and
-- an acknowledgement is answered with a 2xx status.
pub record IsHealthy (env : Environment) (ahc : AmsHttpConsumer) (n : ℕ) (endpoint : String)
    (h : History) : Type 0 where
  pub encodes : (p : Payload) → (b : String) × (env.marshal p ≡ ok b)
  pub builds_pull :
      env.new_request_error "POST"
        (Ams.pull_request env ahc.ams_client.message_service ahc.full_sub n true).url
      ≡ none
  pub builds_post : env.new_request_error "POST" endpoint ≡ none
  pub builds_ack :
      (ack_id : String)
      → env.new_request_error "POST"
          (Ams.ack_request env ahc.ams_client.message_service ahc.full_sub ack_id).url
        ≡ none
  pub messages : ReceivedMessagesList
  pub some_wait : messages.rec_msgs ≢ []
  pub pull_reply : HttpResponse
  pub pulls :
      (r : HttpRequest)
      → r.url ≡ (Ams.pull_request env ahc.ams_client.message_service ahc.full_sub n true).url
      → env.round_trip h r ≡ ok pull_reply
  pub pull_from_200 : 200 ≤ pull_reply.status_code
  pub pull_below_300 : pull_reply.status_code < 300
  pub pull_decodes : env.decode_messages pull_reply.body ≡ ok messages
  pub post_reply : HttpResponse
  pub posts :
      (h1 : History) (r : HttpRequest)
      → Extends h h1
      → r.url ≡ endpoint
      → env.round_trip h1 r ≡ ok post_reply
  pub post_taken : is_http_success post_reply.status_code ≡ true
  pub ack_reply : HttpResponse
  pub acks :
      (ack_id : String) (h1 : History) (r : HttpRequest)
      → Extends h h1
      → r.url ≡ (Ams.ack_request env ahc.ams_client.message_service ahc.full_sub ack_id).url
      → env.round_trip h1 r ≡ ok ack_reply
  pub ack_from_200 : 200 ≤ ack_reply.status_code
  pub ack_below_300 : ack_reply.status_code < 300

-- Between two histories the messages were pulled, sent to the endpoint and accepted by it, and the
-- last one was acknowledged, each with one request.
pub record IsHandedOver (env : Environment) (ahc : AmsHttpConsumer) (cfg : Proto.PushConfig)
    (s : HttpSender) (w : Worker History) (rml : ReceivedMessagesList) (h h3 : History)
    : Type 0 where
  pub h1 : History
  pub h2 : History
  pub pulled : IsPulled env ahc.ams_client.message_service ahc.full_sub cfg.max_messages h rml h1
  pub body : String
  pub encoded :
      http_encodes env s
        (push_msgs_of env.base64_decode w cfg rml)
        (determine_message_format cfg.max_messages)
      ≡ ok body
  pub posted : IsPosted env s.endpoint body is_http_success h1 h2
  pub rm : ReceivedMessage
  pub last_is : last rml ≡ returns rm
  pub acked : IsAcked env ahc.ams_client.message_service ahc.full_sub rm.ack_id h2 h3

module _ (env : Environment) (ahc : AmsHttpConsumer) (cfg : Proto.PushConfig) (s : HttpSender)
    (h : History) (ok_all : IsHealthy env ahc cfg.max_messages s.endpoint h) where
  receives : (h1 : History) × (consume env ahc cfg.max_messages h ≡ (ok ok_all.messages, h1))
  receives =
      let (h1, e) =
        pull-answered env ahc.ams_client.message_service ahc.full_sub cfg.max_messages h
          ok_all.pull_reply ok_all.builds_pull ok_all.pulls ok_all.pull_from_200
          ok_all.pull_below_300 in
      (
        h1,
        consume-received env ahc cfg.max_messages h ok_all.some_wait
            (e ∙ ap (λ x. (x, h1)) ok_all.pull_decodes),
      )

  sends :
      (w : Worker History) (h1 : History)
      → Extends h h1
      → (h2 : History) × (send_http env s
            (push_msgs_of env.base64_decode w cfg ok_all.messages)
            (determine_message_format cfg.max_messages)
            h1
          ≡ returns (none, h2))
  unfolding push_msgs_of
  sends w h1 later =
      send_http-answered env s ok_all.encodes _ _ h1 ok_all.post_reply
        (map-ne-nil _ ok_all.messages.rec_msgs ok_all.some_wait) ok_all.builds_post
        (λ r. ok_all.posts h1 r later) ok_all.post_taken

  acknowledges :
      (ack_id : String) (h2 : History)
      → Extends h h2
      → (h3 : History) × (ack env ahc ack_id h2 ≡ (none, h3))
  acknowledges ack_id h2 later =
      let (h3, e) =
        ack-answered env ahc.ams_client.message_service ahc.full_sub ack_id h2 ok_all.ack_reply
          (ok_all.builds_ack ack_id) (λ r. ok_all.acks ack_id h2 r later) ok_all.ack_from_200
          ok_all.ack_below_300 in
      (h3, ack-done env ahc ack_id h2 e)

  -- The cycle of a worker that consumes from the messaging service and sends to an http endpoint.
  pub push-IsHandedOver :
      (now : String) (w : Worker History)
      → w.consumer ≡ ams_http_consumer env ahc
      → w.sub.push_config ≡ some cfg
      → w.sender ≡ some (http_sender env s)
      → (h3 : History) × (push env.base64_decode now w h
          ≡ returns (record { worker = record w { push_err = "" }; world = h3; signal = none }))
        × IsHandedOver env ahc cfg s w ok_all.messages h h3
  push-IsHandedOver now w consumer_is config_is sender_is =
      let (h1, c) = receives in
      let since : Extends h h1 =
        subst (Extends h) (ap (λ x. x.1) c)
          (Tried-Extends (consume-Tried env ahc cfg.max_messages h)) in
      let (h2, p) = sends w h1 since in
      let later = Extends-trans since (Tried-Extends (send_http-tries env s _ _ h1 _ p)) in
      let (rm, l) = last-returns ok_all.messages ok_all.some_wait in
      let (h3, a) = acknowledges rm.ack_id h2 later in
      let (body, encoded, posted) = send_http-delivers env s _ _ h1 h2 p in
      (
        h3,
        push-succeeds env.base64_decode now w h h1 h2 h3 config_is sender_is
            (ap (λ k. k.consume cfg.max_messages h) consumer_is ∙ c) p l
            (ap (λ k. k.ack rm.ack_id h2) consumer_is ∙ a),
        record {
          h1 = h1;
          h2 = h2;
          pulled = (consume-IsPulled env ahc cfg.max_messages h h1 ok_all.messages c).0;
          body = body;
          encoded = encoded;
          posted = posted;
          rm = rm;
          last_is = l;
          acked = ack-IsAcked_lem env ahc rm.ack_id h2 h3 a;
        },
      )

  -- So the timer's branch of the loop goes back to the select statement, without an error.
  pub work-IsHandedOver :
      (now : String) (l : Loop History)
      → l.worker.consumer ≡ ams_http_consumer env ahc
      → l.worker.sub.push_config ≡ some cfg
      → l.worker.sender ≡ some (http_sender env s)
      → (k : Loop History) × (h3 : History) × (work env.base64_decode now l h ≡ returns (k, h3))
        × (k.worker.sub ≡ l.worker.sub)
        × (k.worker.push_err ≡ "")
        × IsHandedOver env ahc cfg s k.worker ok_all.messages h h3
  unfolding work after_push next_round push_msgs_of
  work-IsHandedOver now l consumer_is config_is sender_is =
      let (h3, e, d) =
        push-IsHandedOver now (with_timer (drain (timer_of l)) l.worker) consumer_is config_is
          sender_is in
      (
        _,
        h3,
        ap (λ g. go_bind g λ p. returns (after_push p)) e,
        refl,
        refl,
        record {
          h1 = d.h1;
          h2 = d.h2;
          pulled = d.pulled;
          body = d.body;
          encoded = d.encoded;
          posted = d.posted;
          rm = d.rm;
          last_is = d.last_is;
          acked = d.acked;
        },
      )
