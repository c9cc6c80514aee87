-- ===== src/Examples/Registering.antt =====
-- api/v1/grpc/server.go: the theorem that the service behaves as a registry, for one run.
use ams_push_server.Base.{refl, List, [], ◌∷◌, ok, err, empty}
use ams_push_server.Push
use ams_push_server.Grpc.{
  new_push_service, subscription_status, activate_subscription, deactivate_subscription, add_worker,
  remove_worker, not_found,
}
use ams_push_server.Grpc.System.{activates, deactivates}
use ams_push_server.Grpc.System.Reachable.{initial}
use ams_push_server.Grpc.Registry.{
  Event, called, activate, deactivate, ask, accepted, refused, Runs,
}
use ams_push_server.Grpc.Registry.View.{view}
use ams_push_server.Grpc.Registry.Refinement.{Trace, begins, steps, asks, service_is_registry}
use ams_push_server.Examples.{example_env, example_config}
use ams_push_server.Examples.Services.{request, name, first, stopped}

-- A subscription is activated, asked for, deactivated, and asked for again.
abbrev events : List Event
events =
    called (ask name) (refused not_found)
    ∷ called (deactivate name) accepted
    ∷ called (ask name) accepted
    ∷ called (activate request) accepted
    ∷ []

run :
    Trace example_env
      (initial example_env example_config [])
      events
      (record first { service = stopped })
unfolding activate_subscription deactivate_subscription subscription_status Push.status
    new_push_service add_worker remove_worker
run =
    asks
      {reply = err (record {
        code = not_found;
        message = "Subscription /projects/p/subscriptions/s is not active";
      })}
      (record { full_name = name })
      (steps
        (asks {reply = ok "Subscription /projects/p/subscriptions/s is currently active"}
          (record { full_name = name })
          (steps begins (
            activates {reply = ok "Subscription /projects/p/subscriptions/s activated"} request
              refl))
          refl)
        (deactivates {reply = ok "Subscription /projects/p/subscriptions/s deactivated"}
          (record { full_name = name }) refl))
      refl

service_is_registry_example : Runs example_env empty events (view stopped)
service_is_registry_example = service_is_registry example_env example_config [] run
