-- ===== src/Examples/Races.antt =====
-- api/v1/grpc/server.go: the theorems on handlers that overlap, and on activating and deactivating,
-- for one service.
use ams_push_server.Base.{ℕ, String, ◌≡◌, refl, [], ok, returns}
use ams_push_server.Grpc.{
  remove_worker, PushService, new_push_service, activate_subscription, deactivate_subscription,
  add_worker,
}
use ams_push_server.Grpc.Activation.{IsComplete}
use ams_push_server.Grpc.RoundTrip.{IsRestored, deactivate-activate}
use ams_push_server.Grpc.System.Coherence.{IsCoherent, new_push_service-IsCoherent}
use ams_push_server.Grpc.Overlap.{
  adding, idle, System, after, admit, commit, Step, admits, commits, Reach, here, next, Panics,
}
use ams_push_server.Grpc.Overlap.Threads.{IsExclusive}
use ams_push_server.Grpc.Overlap.Orderly.{IsOrderly, exclusive_handlers_are_safe}
use ams_push_server.Grpc.Overlap.Race.{Anything, at_rest, IsDoubled, overlapping_activations}
use ams_push_server.Examples.{example_env, example_config, subscription, push_config}
use ams_push_server.Grpc.System
use ams_push_server.Examples.Services.{waiting, signalled, request, fresh, name, new_worker, active}

admitting : admit example_env fresh request ≡ returns (ok (name, new_worker))
unfolding admit new_push_service
admitting = refl

resting : IsOrderly (at_rest fresh [])
unfolding new_push_service
resting = record {
  coherent = new_push_service-IsCoherent example_env example_config;
  fits = λ i. tt;
  apart = λ i j n p q. cc;
}

abbrev tested : System
tested = after (at_rest fresh []) 0 (adding name new_worker) fresh

testing : Step IsExclusive example_env (at_rest fresh []) tested
testing = admits 0 name request refl (λ j e. cc) admitting

abbrev written : System
written = after tested 0 idle (commit fresh (ok (name, new_worker))).1

writing : Step IsExclusive example_env tested written
writing = commits 0 name new_worker refl

exclusive_handlers_are_safe_example : IsCoherent written.service × ((i : ℕ) → ¬ Panics written i)
exclusive_handlers_are_safe_example =
    exclusive_handlers_are_safe example_env (at_rest fresh []) written resting
      (next (next here testing) writing)

overlapping_activations_example :
    (t : System) × Reach Anything example_env (at_rest fresh []) t
    × IsDoubled t.service "/projects/p/subscriptions/s"
overlapping_activations_example =
    overlapping_activations example_env fresh [] request request name new_worker new_worker
      admitting admitting

whole : IsComplete request subscription push_config (record { type = "slowstart"; period = 0 })
whole = record { subscription_is = refl; config_is = refl; policy_is = refl }

deactivate-activate_example :
    (t : String) × (ps2 : PushService) × (deactivate_subscription active
        (record { full_name = "/projects/p/subscriptions/s" })
      ≡ returns (ok t, ps2))
    × IsRestored fresh ps2
unfolding activate_subscription new_push_service add_worker
deactivate-activate_example =
    deactivate-activate example_env fresh request whole
      "Subscription /projects/p/subscriptions/s activated" active refl

abbrev renewed : PushService
renewed = add_worker (remove_worker signalled.service name (0, waiting)) name new_worker
