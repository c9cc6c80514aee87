-- ===== src/Examples/Services.antt =====
-- api/v1/grpc/server.go: the theorems on the service, from its start to an active subscription.
use ams_push_server.Base.{
  ℕ, String, ◌≡◌, refl, [], ◌∷◌, Option, none, some, Result, ok, err, returns, empty, assign, inl,
  inr, ◌==◌, if◌then◌else◌, arith,
}
use ams_push_server.Environment.{Environment, History, HttpRequest, HttpResponse}
use ams_push_server.Proto
use ams_push_server.Ams.{get_user_by_token, get_subscription}
use ams_push_server.Ams.Types.{is_push_enabled}
use ams_push_server.Push.{Worker}
use ams_push_server.Push.Loop.{Loop, signalling, start}
use ams_push_server.Consumers.{CancelableError}
use ams_push_server.Grpc.{
  update, PushService, GrpcError, new_push_service, activate_subscription, deactivate_subscription,
  stop_subscription, subscription_status, add_worker, remove_worker,
}
use ams_push_server.Grpc.Activation.{IsActivation}
use ams_push_server.Grpc.Handlers.{activate_subscription-IsActivation}
use ams_push_server.Grpc.Stopping.{
  IsDeactivation, stop_subscription-IsDeactivation, StatusOf, subscription_status-StatusOf,
}
use ams_push_server.Grpc.System.{System, Step, activates, deactivates, Reach, here, next}
use ams_push_server.Grpc.System.Coherence.{
  IsCoherent, new_push_service-IsCoherent, replace_loop-IsCoherent,
}
use ams_push_server.Grpc.System.Reachable.{
  initial, one_worker_per_subscription, Reach-IsCoherent, Step-IsCoherent,
}
use ams_push_server.Grpc.Load.{State, load_subscriptions, full_sub_name}
use ams_push_server.Grpc.Load.Retry.{AnswersAfter, at_once, later}
use ams_push_server.Grpc.Load.Loadable.{IsLoadable, IsActive}
use ams_push_server.Grpc.Load.Loaded.{IsServed, loadable-IsActive}
use ams_push_server.Examples.{
  example_env, example_config, subscription, stored_subscription, push_user, example_worker,
}

abbrev pub request : Proto.ActivateSubscriptionRequest
request = record { subscription = some subscription }

abbrev pub fresh : PushService
fresh = new_push_service example_env example_config

activate_subscription-IsActivation_example :
    (x : Result GrpcError String × PushService) × (activate_subscription example_env fresh request
      ≡ returns x)
    × IsActivation example_env fresh request x
activate_subscription-IsActivation_example =
    activate_subscription-IsActivation example_env fresh request

abbrev pub name : String
name = "/projects/p/subscriptions/s"

-- The worker that the service makes for the request.
abbrev pub new_worker : Worker History
new_worker = record example_worker { push_err = "" }

abbrev pub active : PushService
active = add_worker fresh name new_worker

abbrev pub stopped : PushService
stopped = remove_worker active name (0, start new_worker)

abbrev again : PushService
again = add_worker stopped name new_worker

abbrev pub first : System
first = initial example_env example_config []

pub activating : Step example_env first (record first { service = active })
unfolding activate_subscription new_push_service add_worker
activating =
    activates {reply = ok "Subscription /projects/p/subscriptions/s activated"} request refl

pub deactivating :
    Step example_env (record first { service = active }) (record first { service = stopped })
unfolding deactivate_subscription new_push_service add_worker remove_worker
deactivating =
    deactivates {reply = ok "Subscription /projects/p/subscriptions/s deactivated"}
      (record { full_name = name }) refl

reactivating :
    Step example_env (record first { service = stopped }) (record first { service = again })
unfolding activate_subscription new_push_service add_worker remove_worker
reactivating =
    activates {reply = ok "Subscription /projects/p/subscriptions/s activated"} request refl

-- The subscription was activated, deactivated, and activated again: two workers were started.
both : Reach example_env first (record first { service = again })
both = next (next (next here activating) deactivating) reactivating

at_one : again.loops 1 ≡ some (start new_worker)
unfolding add_worker remove_worker new_push_service
at_one = refl

one_worker_per_subscription_example : ◌≡◌ {A = ℕ} 1 1
one_worker_per_subscription_example =
    one_worker_per_subscription example_env example_config [] (record first { service = again }) 1 1
      (start new_worker) (start new_worker) both at_one at_one refl refl refl

Step-IsCoherent_example : IsCoherent active
Step-IsCoherent_example =
    Step-IsCoherent {env = example_env} {s = first} {t = record first { service = active }}
      activating (new_push_service-IsCoherent example_env example_config)

pub active-IsCoherent : IsCoherent active
active-IsCoherent =
    Reach-IsCoherent {env = example_env} {s = first} {t = record first { service = active }}
      (next here activating) (new_push_service-IsCoherent example_env example_config)

stop_subscription-IsDeactivation_example :
    (x : Option String × PushService) × (stop_subscription active name ≡ returns x)
    × IsDeactivation active name x
stop_subscription-IsDeactivation_example =
    stop_subscription-IsDeactivation active active-IsCoherent name

subscription_status-StatusOf_example :
    (x : Result GrpcError String) × (subscription_status active (record { full_name = name })
      ≡ returns x)
    × StatusOf active name x
subscription_status-StatusOf_example = subscription_status-StatusOf active active-IsCoherent name

-- The request for the user of the push worker.
abbrev user_request : HttpRequest
user_request = record {
  method = "GET";
  url = "httpsams.example:1/v1/users:byToken/token";
  body = none;
  header = assign "x-api-key" "token" (assign "Content-type" "application/json" empty);
}

abbrev failing_first : History → Result String HttpResponse
failing_first [] = err "timeout"
failing_first (r ∷ rs) = example_env.round_trip (r ∷ rs) user_request

-- A network that fails the first search for the user.
abbrev failing_once : Environment
failing_once = record example_env {
  round_trip =
      λ h r. if r.url == user_request.url then failing_first h else example_env.round_trip h r;
}

found_second :
    AnswersAfter failing_once fresh.ams_client.user_service "token" push_user
      (user_request ∷ user_request ∷ [])
      1
      []
unfolding get_user_by_token new_push_service
found_second = later "timeout" refl (at_once refl)

served : IsServed failing_once fresh.ams_client "/projects/p/subscriptions/s" stored_subscription
unfolding get_subscription new_push_service
served = record { answer = λ h. (_, refl) }

loadable : IsLoadable failing_once stored_subscription
unfolding is_push_enabled
loadable = record { enabled = refl; known_policy = inr refl; endpoint_fine = λ e. refl }

loadable-IsActive_example :
    (s : State) × (load_subscriptions failing_once 5 (fresh, []) ≡ returns (some s))
    × (s.0.status ≡ "ok")
    × IsCoherent s.0
    × IsActive s.0 "/projects/p/subscriptions/s"
unfolding new_push_service full_sub_name
loadable-IsActive_example =
    loadable-IsActive failing_once 5 1 fresh push_user [] (user_request ∷ user_request ∷ [])
      (record { project = "p"; subscriptions = "s" ∷ [] }) "s" stored_subscription (omega arith)
      found_second (new_push_service-IsCoherent example_env example_config) (inl refl) (inl refl)
      served loadable

-- The worker of the active subscription has met an error that stops it.
abbrev pub gone : CancelableError
gone = record { err_msg = "project doesn't exist"; resource = "/projects/p/subscriptions/s" }

abbrev pub waiting : Loop History
waiting = record { worker = new_worker; phase = signalling gone }

abbrev pub signalled : System
signalled = record first { service = record active { loops = update 0 waiting active.loops } }

pub signalled-IsCoherent : IsCoherent signalled.service
unfolding add_worker new_push_service
signalled-IsCoherent =
    replace_loop-IsCoherent active 0 (start new_worker) waiting active-IsCoherent refl refl refl
