-- ===== src/Grpc/Activation.antt =====
-- api/v1/grpc/server.go: the answers to a request to activate a subscription.
use ams_push_server.Base.{
  some_inj, ℕ, String, ◌≡◌, ◌≢◌, sym, ap, ◌∙◌, false, none, some, Result, ok, err,
}
use ams_push_server.Environment.{Environment, History}
use ams_push_server.Proto
use ams_push_server.RetryPolicies
use ams_push_server.RetryPolicies.{RetryPolicy, linear_retry_policy, slow_start_retry_policy}
use ams_push_server.Ams.{Client}
use ams_push_server.Consumers
use ams_push_server.Senders
use ams_push_server.Push.{Worker}
use ams_push_server.Grpc.{PushService, GrpcError, invalid_argument, already_exists, add_worker}

-- The request carries a subscription with a push configuration and a retry policy.
pub record IsComplete (r : Proto.ActivateSubscriptionRequest) (sub : Proto.Subscription)
    (cfg : Proto.PushConfig) (rp : Proto.RetryPolicy) : Type 0 where
  pub subscription_is : r.subscription ≡ some sub
  pub config_is : sub.push_config ≡ some cfg
  pub policy_is : cfg.retry_policy ≡ some rp

-- A worker that was just made for a subscription: it runs, and no error is registered.
pub record IsNewFor (env : Environment) (client : Client) (sub : Proto.Subscription)
    (cfg : Proto.PushConfig) (rp : Proto.RetryPolicy) (w : Worker History) : Type 0 where
  pub sub_is : w.sub ≡ sub
  pub consumer_is :
      w.consumer
      ≡ Consumers.ams_http_consumer env (record { full_sub = sub.full_name; ams_client = client })
  pub sender_is : w.sender ≡ Senders.new env cfg
  pub runs : w.cancelled ≡ false
  pub no_error : w.push_err ≡ ""
  pub policy : RetryPolicies.new rp ≡ ok w.retry_policy

-- An endpoint of type HTTP_ENDPOINT parses.
abbrev pub IsEndpointFine : Environment → Proto.PushConfig → Type 0
IsEndpointFine env cfg =
    cfg.type ≡ Proto.http_endpoint → env.parse_request_uri_error cfg.push_endpoint ≡ none

-- The answers to a request to activate, and the service after each.
pub data IsActivation (env : Environment) (ps : PushService) (r : Proto.ActivateSubscriptionRequest)
    : Result GrpcError String × PushService → Type 0 where
  incomplete :
      (e : GrpcError)
      → ((sub : Proto.Subscription) (cfg : Proto.PushConfig) (rp : Proto.RetryPolicy)
          → ¬ (IsComplete r sub cfg rp))
      → e.code ≡ invalid_argument
      → IsActivation env ps r (err e, ps)
  duplicate :
      (e : GrpcError) (sub : Proto.Subscription) (cfg : Proto.PushConfig) (rp : Proto.RetryPolicy)
      (i : ℕ)
      → IsComplete r sub cfg rp
      → ps.push_workers sub.full_name ≡ some i
      → e.code ≡ already_exists
      → IsActivation env ps r (err e, ps)
  bad_endpoint :
      (e : GrpcError) (sub : Proto.Subscription) (cfg : Proto.PushConfig) (rp : Proto.RetryPolicy)
      (t : String)
      → IsComplete r sub cfg rp
      → ps.push_workers sub.full_name ≡ none
      → cfg.type ≡ Proto.http_endpoint
      → env.parse_request_uri_error cfg.push_endpoint ≡ some t
      → e.code ≡ invalid_argument
      → IsActivation env ps r (err e, ps)
  unsupported :
      (e : GrpcError) (sub : Proto.Subscription) (cfg : Proto.PushConfig) (rp : Proto.RetryPolicy)
      → IsComplete r sub cfg rp
      → ps.push_workers sub.full_name ≡ none
      → IsEndpointFine env cfg
      → rp.type ≢ linear_retry_policy
      → rp.type ≢ slow_start_retry_policy
      → e.code ≡ invalid_argument
      → IsActivation env ps r (err e, ps)
  activated :
      (message : String) (sub : Proto.Subscription) (cfg : Proto.PushConfig)
      (rp : Proto.RetryPolicy) (w : Worker History)
      → IsComplete r sub cfg rp
      → ps.push_workers sub.full_name ≡ none
      → IsEndpointFine env cfg
      → IsNewFor env ps.ams_client sub cfg rp w
      → IsActivation env ps r (ok message, add_worker ps sub.full_name w)

module _ {r : Proto.ActivateSubscriptionRequest} {sub : Proto.Subscription} {cfg : Proto.PushConfig}
    {rp : Proto.RetryPolicy} (whole : IsComplete r sub cfg rp) where
  -- The parts of a request are determined by it.
  pub same_sub :
      {sub' : Proto.Subscription} {cfg' : Proto.PushConfig} {rp' : Proto.RetryPolicy}
      → IsComplete r sub' cfg' rp'
      → sub' ≡ sub
  same_sub w = some_inj (sym w.subscription_is ∙ whole.subscription_is)

  pub same_config :
      {sub' : Proto.Subscription} {cfg' : Proto.PushConfig} {rp' : Proto.RetryPolicy}
      → IsComplete r sub' cfg' rp'
      → cfg' ≡ cfg
  same_config w =
      some_inj (sym w.config_is ∙ ap (λ s. s.push_config) (same_sub w) ∙ whole.config_is)

  pub same_policy :
      {sub' : Proto.Subscription} {cfg' : Proto.PushConfig} {rp' : Proto.RetryPolicy}
      → IsComplete r sub' cfg' rp'
      → rp' ≡ rp
  same_policy w =
      some_inj (sym w.policy_is ∙ ap (λ c. c.retry_policy) (same_config w) ∙ whole.policy_is)
