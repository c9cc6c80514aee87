-- ===== src/Examples/Ending.antt =====
-- api/v1/grpc/server.go and push/worker.go: the theorems on every worker that was started.
use ams_push_server.Base.{refl, []}
use ams_push_server.Push.Loop.{start, cancel}
use ams_push_server.Grpc.{add_worker, remove_worker, new_push_service}
use ams_push_server.Grpc.System.{System, Reach, here, next}
use ams_push_server.Grpc.System.Wired.{IsWired, started_worker-IsWired}
use ams_push_server.Grpc.System.Ending.{HasEnded, stopped_worker_ends}
use ams_push_server.Examples.{example_env, example_config}
use ams_push_server.Examples.Services.{first, stopped, activating, deactivating, new_worker}

-- The subscription was activated and deactivated.
abbrev deactivated : System
deactivated = record first { service = stopped }

stopped_worker_ends_example : (t : System) × Reach example_env deactivated t × HasEnded t 0
unfolding add_worker remove_worker new_push_service cancel
stopped_worker_ends_example =
    stopped_worker_ends example_env example_config [] deactivated 0 (cancel (start new_worker))
      (next (next here activating) deactivating) refl refl

started_worker-IsWired_example : IsWired example_env stopped.ams_client (cancel (start new_worker))
unfolding add_worker remove_worker new_push_service cancel
started_worker-IsWired_example =
    started_worker-IsWired example_env example_config [] deactivated 0 (cancel (start new_worker))
      (next (next here activating) deactivating) refl
