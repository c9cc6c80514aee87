-- ===== src/Examples/Cycles.antt =====
-- push/worker.go: the theorems on push cycles and on the worker's loop, for one worker and a network
-- that answers every request.
use ams_push_server.Base.{
  min, ◌*◌, String, ◌≡◌, refl, [], ◌∷◌, none, some, err, returns, arith, Dict, assign, empty, ◌++◌,
  ◌↔◌,
}
use ams_push_server.Environment.{History, HttpRequest}
use ams_push_server.RetryPolicies
use ams_push_server.RetryPolicies.{
  Slowstart, slow_start_upper_time_bound, slow_start_initial_interval,
}
use ams_push_server.Consumers
use ams_push_server.Consumers.{
  ams_http_consumer, consume, to_cancelable_error, new_cancelable_error, no_new_messages,
}
use ams_push_server.Consumers.Laws.{IsCancelable, to_cancelable_error_iff}
use ams_push_server.Senders.{http_sender, send_http}
use ams_push_server.Senders.Delivery.{http_sender-IsDelivering}
use ams_push_server.Push
use ams_push_server.Push.{Worker, Pushed, push, push_msgs_of}
use ams_push_server.Push.Cycle.{ams_worker, IsCycle, push-IsCycle, push-returns}
use ams_push_server.Push.Loop.{Loop, start, tick, work, finish, ended, own, ticks, cancels, cancel}
use ams_push_server.Push.Loop.Armed.{IsArmed, running}
use ams_push_server.Push.Loop.Sound.{here, next, finish_never_blocks}
use ams_push_server.Push.Silence.{IsQuiet, quiet_round_doubles}
use ams_push_server.Examples.{
  example_env, example_consumer, example_sender, example_worker, push_config, slow_policy,
}

-- The headers that the client of the messaging service sets.
abbrev pub ams_header : Dict String
ams_header = assign "x-api-key" "token" (assign "Content-type" "application/json" empty)

abbrev pub ams_call : String → HttpRequest
ams_call action = record {
  method = "POST";
  url = "httpsams.example:1/v1/projects/p/subscriptions/s:" ++ action;
  body = some "{}";
  header = ams_header;
}

abbrev pub delivery : HttpRequest
delivery = record {
  method = "POST";
  url = "https://remote.example/hook";
  body = some "{}";
  header = assign "Authorization" "secret" (assign "Content-Type" "application/json" empty);
}

-- The worker after a cycle that delivered the message and acknowledged it.
abbrev cycle_done : Pushed History
cycle_done = record {
  worker = record example_worker { push_err = "" };
  world = ams_call "acknowledge" ∷ delivery ∷ ams_call "pull" ∷ [];
  signal = none;
}

push-IsCycle_example :
    IsCycle example_env example_consumer push_config
      (http_sender example_env example_sender)
      (http_sender-IsDelivering example_env example_sender)
      example_worker
      []
      cycle_done
unfolding push consume send_http Consumers.ack
push-IsCycle_example =
    push-IsCycle example_env example_consumer push_config (http_sender example_env example_sender)
      (http_sender-IsDelivering example_env example_sender) example_worker "noon" [] cycle_done refl

push-returns_example :
    (p : Pushed History) × (push example_env.base64_decode "noon"
        (ams_worker example_env example_consumer push_config
          (http_sender example_env example_sender)
          example_worker)
        []
      ≡ returns p)
push-returns_example =
    push-returns example_env example_consumer push_config (http_sender example_env example_sender)
      (http_sender-IsDelivering example_env example_sender) example_worker "noon" []

to_cancelable_error_iff_example :
    (to_cancelable_error example_env example_consumer "project doesn't exist"
      ≡ some
          (record { err_msg = "project doesn't exist"; resource = "/projects/p/subscriptions/s" }))
    ↔ IsCancelable example_env example_consumer "project doesn't exist"
        (record { err_msg = "project doesn't exist"; resource = "/projects/p/subscriptions/s" })
to_cancelable_error_iff_example =
    to_cancelable_error_iff example_env example_consumer "project doesn't exist"
      (record { err_msg = "project doesn't exist"; resource = "/projects/p/subscriptions/s" })

abbrev started : Loop History
started = start example_worker

armed : IsArmed slow_policy.timer
armed = running slow_start_initial_interval refl refl

-- The timer fires, and then the context is cancelled while its value waits.
finish_never_blocks_example :
    (l : Loop History) × (finish (cancel (tick started)) ≡ some l) × (l.phase ≡ ended)
finish_never_blocks_example =
    finish_never_blocks example_env.base64_decode example_worker [] (cancel (tick started)) [] armed
      (next (next here (own ticks)) cancels) (unfold cancel tick in refl)

-- A consumer whose subscription has no messages.
abbrev quiet_worker : Worker History
quiet_worker = record example_worker {
  consumer = record (ams_http_consumer example_env example_consumer) {
    consume = λ n h. (err no_new_messages, h);
  };
}

is_quiet : IsQuiet example_env.base64_decode "noon" push_config quiet_worker [] []
unfolding to_cancelable_error
is_quiet = record { configured = refl; no_messages = refl; not_cancelable = refl }

quiet_round_doubles_example :
    (l : Loop History) × (work example_env.base64_decode "noon" (start quiet_worker) []
      ≡ returns (l, []))
    × (Push.status l.worker ≡ "an earlier error")
    × (s : Slowstart) × (l.worker.retry_policy ≡ RetryPolicies.slowstart s)
    × (s.previous_restart_interval ≡ min slow_start_upper_time_bound (1_000_000_000 * 2))
quiet_round_doubles_example =
    quiet_round_doubles example_env.base64_decode "noon" push_config (start quiet_worker)
      slow_policy [] [] refl (record { lower = omega arith; upper = omega arith }) refl is_quiet
