-- ===== src/Push/Stages.antt =====
-- push/worker.go: the push cycle with its stops: between receiving the messages, sending them and
-- acknowledging them, other goroutines run. Each stage has the formatted time of its own error.
pub mod Whole
pub mod Route
pub mod Advance
use ams_push_server.Base.{
  String, Option, none, some, Result, ok, err, Go, returns, panics, go_bind, deref,
}
use ams_push_server.Proto
use ams_push_server.Ams.Types.{ReceivedMessage, ReceivedMessagesList, last}
use ams_push_server.Consumers.{CancelableError}
use ams_push_server.Timer.{drain}
use ams_push_server.Senders.Types.{determine_message_format}
use ams_push_server.Push.{Worker, Pushed, push_msgs_of, failure, consume_failed, acknowledged}
use ams_push_server.Push.Loop.{Loop, Phase, timer_of, with_timer, after_push}
use ams_push_server.Push.Loop

-- Where the goroutine of a worker stands: at its select statement; before the call of Send, with the
-- received messages; before the call of Ack, with the last of them; at the write to the deactivation
-- channel; or past its end.
pub data Stage : Type 0 where
  selecting : Stage
  fetched : ReceivedMessagesList → Stage
  delivered : ReceivedMessage → Stage
  signalling : CancelableError → Stage
  ended : Stage

pub record Staged (W : Type 0) : Type 0 where
  pub worker : Worker W
  pub stage : Stage

abbrev stage_of : Phase → Stage
stage_of Loop.selecting = selecting
stage_of (Loop.signalling ce) = signalling ce
stage_of Loop.ended = ended

module _ {W : Type 0} where
  -- A loop that is not inside a cycle, or only at the write to the channel.
  abbrev pub staged : Loop W → Staged W
  staged l = record { worker = l.worker; stage = stage_of l.phase }

  -- The loop of a worker at its select statement.
  abbrev pub at_select : Worker W → Loop W
  at_select w = record { worker = w; phase = Loop.selecting }

  -- The end of a cycle.
  unfoldable pub settled : Pushed W → Staged W × W
  unfolding after_push
  settled p = let (l, world) = after_push p in (staged l, world)

  module _ (base64_decode : String → Result String String) (now : String) where
    pub fetched_as : Worker W → Result String ReceivedMessagesList × W → Staged W × W
    unfolding settled consume_failed
    fetched_as w (err error, world) = settled (consume_failed base64_decode now w world error)
    fetched_as w (ok rml, world) = (record { worker = w; stage = fetched rml }, world)

    -- The timer's branch of the select statement, up to the call of Send.
    unfoldable pub fetch : Worker W → W → Go (Staged W × W)
    unfolding fetched_as
    fetch w world =
        go_bind (deref w.sub.push_config)
          λ cfg. returns (fetched_as w (w.consumer.consume cfg.max_messages world))

    pub sent_as : Worker W → ReceivedMessagesList → Option String × W → Go (Staged W × W)
    unfolding settled failure last
    sent_as w rml (some error, world) = returns (
        settled (record {
          worker = record w { push_err = failure now "Could not send message" error };
          world = world;
          signal = none;
        }))
    sent_as w rml (none, world) =
        go_bind (last rml) λ rm. returns (record { worker = w; stage = delivered rm }, world)

    -- The call of Send, up to the call of Ack.
    unfoldable pub hand_over : ReceivedMessagesList → Worker W → W → Go (Staged W × W)
    unfolding push_msgs_of determine_message_format sent_as
    hand_over rml w world = go_bind (deref w.sub.push_config) λ cfg. go_bind (deref w.sender) λ s.
        go_bind
          (s.send (push_msgs_of base64_decode w cfg rml) (determine_message_format cfg.max_messages)
            world)
          (sent_as w rml)

    -- The call of Ack, and the end of the cycle.
    unfoldable pub confirm : ReceivedMessage → Worker W → W → Staged W × W
    unfolding settled acknowledged
    confirm rm w world = settled (acknowledged base64_decode now w (w.consumer.ack rm.ack_id world))

    -- A cycle whose stages follow each other with nothing between them.
    abbrev pub go_on : Staged W × W → Go (Staged W × W)
    go_on (l, world) = elim l.stage [
      | fetched rml ↦ hand_over rml l.worker world
      | other ↦ returns (l, world)
    ]

    abbrev pub conclude : Staged W × W → Staged W × W
    conclude (l, world) = elim l.stage [
      | delivered rm ↦ confirm rm l.worker world
      | other ↦ (l, world)
    ]

    abbrev pub uninterrupted : Worker W → W → Go (Staged W × W)
    uninterrupted w world = go_bind (go_bind (fetch w world) go_on) λ x. returns (conclude x)
