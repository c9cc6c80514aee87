-- ===== src/Examples/Panics.antt =====
-- api/v1/grpc/server.go: a request with the push type 7, which no sender is made for.
use ams_push_server.Base.{
  String, ◌≡◌, refl, [], ◌∷◌, inr, arith, some, Result, returns, empty, assign,
}
use ams_push_server.Environment.{HttpRequest}
use ams_push_server.Proto
use ams_push_server.Consumers
use ams_push_server.Grpc.{PushService, GrpcError, new_push_service, activate_subscription}
use ams_push_server.Grpc.Activation.{IsComplete}
use ams_push_server.Grpc.UnknownType.{AcceptsAndPanics, unknown_type_panics}
use ams_push_server.Examples.{example_env, example_config, push_config, subscription, one_message}

abbrev odd_config : Proto.PushConfig
odd_config = record push_config { type = 7 }

abbrev odd_subscription : Proto.Subscription
odd_subscription = record subscription { push_config = some odd_config }

abbrev odd_request : Proto.ActivateSubscriptionRequest
odd_request = record { subscription = some odd_subscription }

odd_whole :
    IsComplete odd_request odd_subscription odd_config (record { type = "slowstart"; period = 0 })
odd_whole = record { subscription_is = refl; config_is = refl; policy_is = refl }

abbrev idle : PushService
idle = new_push_service example_env example_config

abbrev pull_call : HttpRequest
pull_call = record {
  method = "POST";
  url = "httpsams.example:1/v1/projects/p/subscriptions/s:pull";
  body = some "{}";
  header = assign "x-api-key" "token" (assign "Content-type" "application/json" empty);
}

unknown_type_panics_example :
    (x : Result GrpcError String × PushService) × (activate_subscription example_env idle
        odd_request
      ≡ returns x)
    × AcceptsAndPanics example_env idle odd_request odd_whole "noon" [] x
unfolding new_push_service Consumers.consume
unknown_type_panics_example =
    unknown_type_panics example_env idle odd_request odd_whole "noon" [] (pull_call ∷ [])
      one_message refl (inr refl) (omega arith) (omega arith) refl
