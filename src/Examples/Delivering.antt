-- ===== src/Examples/Delivering.antt =====
-- api/v1/grpc/server.go and push/worker.go: the theorems on the way from a request to the endpoint.
use ams_push_server.Base.{String, [], ◌∷◌, none, some, Result, ok, length, eqb, if◌then◌else◌}
use ams_push_server.Environment.{Environment, History, HttpResponse}
use ams_push_server.Consumers.{ams_http_consumer}
use ams_push_server.Senders.{http_sender}
use ams_push_server.Timer.{drain}
use ams_push_server.Push.{Worker, Pushed}
use ams_push_server.Push.Loop.{Loop, start, tick, with_timer, timer_of, after_push}
use ams_push_server.Examples.Cycles.{delivery, ams_call}
use ams_push_server.Grpc.{add_worker}
use ams_push_server.Grpc.System.{System, with_loop}
use ams_push_server.Examples.{example_env, example_consumer, example_sender}
use ams_push_server.Examples.Services.{first, fresh, new_worker, name}

abbrev accepted : HttpResponse
accepted = record { status_code = 200; body = record { content = "{}"; read_error = none } }

-- A network that refuses the second request, and answers every other one.
abbrev refuses_second : History → Result String HttpResponse
refuses_second h = ok (record {
  status_code = if eqb (length h) 1 then 500 else 200;
  body = record { content = "{}"; read_error = none };
})

abbrev recovering_env : Environment
recovering_env = record example_env { round_trip = λ h r. refuses_second h }

abbrev recovering_worker : Worker History
recovering_worker = record new_worker {
  consumer = ams_http_consumer recovering_env example_consumer;
  sender = some (http_sender recovering_env example_sender);
}

-- The worker has run one cycle, whose delivery was refused.
abbrev refused : Pushed History
refused = record {
  worker =
      record (with_timer (drain (timer_of (tick (start recovering_worker)))) recovering_worker) {
        push_err = "noon - Could not send message, {}";
      };
  world = delivery ∷ ams_call "pull" ∷ [];
  signal = none;
}

abbrev started : System
started = record first { service = add_worker fresh name recovering_worker }

abbrev ticked : System
ticked = with_loop 0 (tick (start recovering_worker)) started

abbrev failed : Loop History
failed = (after_push refused).0

abbrev waiting : System
waiting = record (with_loop 0 failed ticked) { world = refused.world }
