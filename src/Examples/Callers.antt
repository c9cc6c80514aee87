-- ===== src/Examples/Callers.antt =====
-- api/v1/grpc/interceptors.go: the theorems for concrete callers.
use ams_push_server.Base.{
  String, ◌≡◌, refl, true, List, [], ◌∷◌, length, All, none, some, Result, returns,
}
use ams_push_server.Environment.{History}
use ams_push_server.Config.{Config}
use ams_push_server.Grpc.{PushService, GrpcError, new_push_service}
use ams_push_server.Grpc.Load.{start_service}
use ams_push_server.Grpc.Interceptors.{
  Context, Call, status_call, subscription_status_call, deactivate_call, tls_info, handle, serve,
  auth_interceptor,
}
use ams_push_server.Grpc.Interceptors.Access.{IsHonest, Decides, auth_interceptor-Decides}
use ams_push_server.Grpc.Interceptors.Gate.{
  IsRefused, IsError, serve_all, serve-IsRefused, skip_subs_load-refuses,
}
use ams_push_server.Examples.{example_env, example_config}

-- A caller with a certificate of the name that the access control list holds.
abbrev known_caller : Context
known_caller =
    some (
      some
        (record { auth_info = some (tls_info (record { common_name = "client.example" } ∷ [])) }))

known_caller-IsHonest : IsHonest known_caller
known_caller-IsHonest p t e o = cc

abbrev fresh : PushService
fresh = new_push_service example_env example_config

auth_interceptor-Decides_example :
    Decides ("client.example" ∷ []) known_caller (handle example_env status_call) fresh (
      auth_interceptor
        ("client.example" ∷ [])
        (handle example_env status_call)
        true
        known_caller
        fresh)
auth_interceptor-Decides_example =
    auth_interceptor-Decides ("client.example" ∷ []) (handle example_env status_call) fresh
      known_caller known_caller-IsHonest

serve-IsRefused_example :
    IsRefused fresh
      (serve example_env known_caller (subscription_status_call (record { full_name = "s" })) fresh)
serve-IsRefused_example =
    serve-IsRefused example_env known_caller (subscription_status_call (record { full_name = "s" }))
      fresh known_caller-IsHonest (unfold new_push_service in refl)

abbrev skipping : Config
skipping = record example_config { skip_subs_load = true }

abbrev calls : List (Context × Call)
calls = (known_caller, status_call) ∷ (none, deactivate_call (record { full_name = "s" })) ∷ []

skip_subs_load-refuses_example :
    (s : PushService × History) × (start_service example_env 3 skipping [] ≡ returns (some s))
    × (replies : List (Result GrpcError String)) × (serve_all example_env calls s.0
        ≡ returns (replies, s.0))
    × All IsError replies
    × (length replies ≡ length calls)
skip_subs_load-refuses_example =
    skip_subs_load-refuses example_env 3 skipping [] calls refl
      (known_caller-IsHonest, ((λ p t e o. cc), tt))
