-- ===== src/Push.antt =====
-- push/worker.go: the worker, its push cycle and its loop. The pointer to the worker is the record
-- itself, which each method returns changed; `now` is the formatted time of the cycle.
pub mod Made
pub mod Keeps
pub mod Cycle
pub mod Success
pub mod FirstOnly
pub mod Healthy
pub mod Loop
pub mod Stages
pub mod Silence
pub mod NilSender
pub mod Mock
use ams_push_server.Base.{
  String, ◌++◌, ◌==◌, Bool, true, false, Option, none, some, List, map, Result, ok, err, Go,
  returns, panics, go_bind, deref, if◌then◌else◌,
}
use ams_push_server.Proto
use ams_push_server.Ams.Types.{Message, ReceivedMessage, ReceivedMessagesList, last}
use ams_push_server.Consumers.{Consumer, CancelableError, no_new_messages}
use ams_push_server.Senders.{Sender}
use ams_push_server.Senders.Types.{PushMsg, PushMsgs, determine_message_format}
use ams_push_server.RetryPolicies
use ams_push_server.RetryPolicies.{RetryPolicy}

-- The context is cancelled or not. A sender may be a nil interface.
pub record Worker (W : Type 0) : Type 0 where
  pub sub : Proto.Subscription
  pub consumer : Consumer W
  pub sender : Option (Sender W)
  pub cancelled : Bool
  pub retry_policy : RetryPolicy
  pub push_err : String

-- What a cycle leaves: the worker, the outside, and the error that it writes to the deactivation
-- channel, if any.
pub record Pushed (W : Type 0) : Type 0 where
  pub worker : Worker W
  pub world : W
  pub signal : Option CancelableError

-- fmt.Sprintf("%v - %v, %v", now, what, err)
pub failure : String → String → String → String
failure now what error = (((now ++ " - ") ++ what) ++ ", ") ++ error

decoded_or_original : String → Result String String → String
decoded_or_original original (ok d) = d
decoded_or_original original (err e) = original

-- The payload of a message: decoded if the subscription says so, or the original if that fails.
unfoldable pub message_data : (String → Result String String) → Bool → String → String
unfolding decoded_or_original
message_data base64_decode base_64_decode original =
    if base_64_decode then decoded_or_original original (base64_decode original) else original

module _ {W : Type 0} where
  made :
      Proto.Subscription
      → Consumer W
      → Option (Sender W)
      → Proto.RetryPolicy
      → Result String RetryPolicy
      → Result String (Worker W)
  made sub c s rp (err e) = err (("worker " ++ rp.type) ++ " not yet implemented")
  made sub c s rp (ok p) = ok (record {
    sub = sub;
    consumer = c;
    sender = s;
    cancelled = false;
    retry_policy = p;
    push_err = "";
  })

  -- func New(sub *amsPb.Subscription, c consumers.Consumer, s senders.Sender, ch chan<- ...)
  unfoldable pub new :
      Proto.Subscription → Consumer W → Option (Sender W) → Go (Result String (Worker W))
  unfolding made RetryPolicies.new
  new sub c s =
      go_bind (deref sub.push_config) λ cfg.
        go_bind (deref cfg.retry_policy) λ rp. returns (made sub c s rp (RetryPolicies.new rp))

  -- func (w *worker) Status()
  unfoldable pub status : Worker W → String
  status w =
      if w.push_err == ""
      then ("Subscription " ++ w.sub.full_name) ++ " is currently active"
      else w.push_err

  -- func (w *worker) Stop()
  unfoldable pub stop : Worker W → Worker W
  stop w = record w { cancelled = true }

  module _ (base64_decode : String → Result String String) where
    -- The body of the loop over the received messages.
    to_push_msg : Worker W → Proto.PushConfig → ReceivedMessage → PushMsg
    unfolding message_data
    to_push_msg w cfg rm = record {
      sub = w.consumer.resource_info;
      msg = record {
        id = rm.msg.id;
        attr = rm.msg.attr;
        content = message_data base64_decode cfg.base_64_decode rm.msg.content;
        pub_time = rm.msg.pub_time;
      };
    }

    unfoldable pub push_msgs_of : Worker W → Proto.PushConfig → ReceivedMessagesList → PushMsgs
    unfolding to_push_msg
    push_msgs_of w cfg rml = record { messages = map (to_push_msg w cfg) rml.rec_msgs }

    -- The branch `err != nil` after Consume.
    pub consume_failed : String → Worker W → W → String → Pushed W
    unfolding failure
    consume_failed now w world error = elim (w.consumer.to_cancelable_error error) [
      | some ce ↦ record { worker = w; world = world; signal = some ce }
      | none ↦
          if error == no_new_messages
          then record { worker = w; world = world; signal = none }
          else record {
            worker = record w { push_err = failure now "Could not consume message" error };
            world = world;
            signal = none;
          }
    ]

    -- The end of the cycle: Ack and its error.
    pub acknowledged : String → Worker W → Option String × W → Pushed W
    unfolding failure
    acknowledged now w (some error, world) = record {
      worker = record w { push_err = failure now "Could not acknowledge message" error };
      world = world;
      signal = none;
    }
    acknowledged now w (none, world) = record {
      worker = record w { push_err = "" };
      world = world;
      signal = none;
    }

    sent : String → Worker W → ReceivedMessagesList → Option String × W → Go (Pushed W)
    unfolding failure acknowledged last
    sent now w rml (some error, world) = returns (record {
      worker = record w { push_err = failure now "Could not send message" error };
      world = world;
      signal = none;
    })
    sent now w rml (none, world) =
        go_bind (last rml) λ rm. returns (acknowledged now w (w.consumer.ack rm.ack_id world))

    -- From the received messages on: the call of a nil sender panics.
    deliver : String → Worker W → Proto.PushConfig → ReceivedMessagesList → W → Go (Pushed W)
    unfolding push_msgs_of determine_message_format sent
    deliver now w cfg rml world = go_bind (deref w.sender) λ s.
        go_bind (s.send (push_msgs_of w cfg rml) (determine_message_format cfg.max_messages) world)
          (sent now w rml)

    consumed :
        String
        → Worker W
        → Proto.PushConfig
        → Result String ReceivedMessagesList × W
        → Go (Pushed W)
    unfolding consume_failed deliver
    consumed now w cfg (err error, world) = returns (consume_failed now w world error)
    consumed now w cfg (ok rml, world) = deliver now w cfg rml world

    -- func (w *worker) push()
    unfoldable pub push : String → Worker W → W → Go (Pushed W)
    unfolding consumed
    push now w world =
        go_bind (deref w.sub.push_config)
          λ cfg. consumed now w cfg (w.consumer.consume cfg.max_messages world)
