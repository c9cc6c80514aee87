-- ===== src/Examples/Interleaving.antt =====
-- push/worker.go: the theorem on the stages of a push cycle, for one worker.
use ams_push_server.Base.{refl, [], ◌∷◌}
use ams_push_server.Environment.{History}
use ams_push_server.Ams.Types.{ReceivedMessage}
use ams_push_server.Consumers.{consume}
use ams_push_server.Senders.{send_http}
use ams_push_server.Push.{Worker}
use ams_push_server.Push.Loop.{tick}
use ams_push_server.Push.Stages.{Staged, selecting, fetched, delivered, fetch, hand_over}
use ams_push_server.Push.Stages.Route.{Route, IsDelivered}
use ams_push_server.Grpc.{make_worker}
use ams_push_server.Grpc.Fleet.{
  Fleet, put, changed, received, Step, starts, ticks, fetches, hands_over, others, here, next,
  no_workers,
}
use ams_push_server.Grpc.Fleet.Earned.{acks_are_earned}
use ams_push_server.Examples.{
  example_env, example_worker, example_client, subscription, push_config, one_message,
}
use ams_push_server.Examples.Services.{new_worker}
use ams_push_server.Examples.Cycles.{ams_call, delivery}

abbrev made : Worker History
made = record new_worker { consumer = example_worker.consumer }

abbrev started : Fleet
started = put 0 (record { worker = made; stage = selecting }, []) (no_workers [])

abbrev ticked : Fleet
ticked = put 0 (changed tick (record { worker = made; stage = selecting }), []) started

starting : Step example_env (no_workers []) started
unfolding make_worker
starting = starts 0 example_client subscription push_config made refl refl refl

ticking : Step example_env started ticked
ticking = ticks 0 (record { worker = made; stage = selecting }) refl

-- The worker inside its cycle.
abbrev inside : Worker History
inside = received (changed tick (record { worker = made; stage = selecting })).worker

abbrev pulled : Fleet
pulled =
    put 0 (record { worker = inside; stage = fetched one_message }, ams_call "pull" ∷ []) ticked

pulling : Step example_env ticked pulled
unfolding fetch consume tick
pulling = fetches 0 _ "noon" _ refl refl refl refl

-- A request of another goroutine goes out between the pull and the delivery.
abbrev shared : Fleet
shared = record pulled { world = ams_call "other" ∷ ams_call "pull" ∷ [] }

sharing : Step example_env pulled shared
sharing = others (ams_call "other")

abbrev received_message : ReceivedMessage
received_message = record {
  ack_id = "ack-7";
  msg = record { id = "7"; attr = []; content = "aGVsbG8="; pub_time = "now" };
}

abbrev confirmed : Staged History
confirmed = record { worker = inside; stage = delivered received_message }

abbrev sent : Fleet
sent = put 0 (confirmed, delivery ∷ ams_call "other" ∷ ams_call "pull" ∷ []) shared

sending : Step example_env shared sent
unfolding hand_over send_http tick
sending = hands_over 0 _ one_message "noon" _ refl refl refl

acks_are_earned_example :
    (r : Route example_env inside) × IsDelivered example_env inside r received_message
      (delivery ∷ ams_call "other" ∷ ams_call "pull" ∷ [])
acks_are_earned_example =
    acks_are_earned example_env [] sent 0 confirmed received_message
      (next (next (next (next (next here starting) ticking) pulling) sharing) sending) refl refl
