-- ===== src/Grpc/Registry.antt =====
-- api/v1/grpc/server.go: what the service promises to its clients, without workers: a registry of the
-- active subscriptions.
pub mod View
pub mod Refinement
use ams_push_server.Base.{
  String, ◌≡◌, ◌⊎◌, List, [], ◌∷◌, append, Option, none, some, Result, ok, err, Dict, assign,
  delete,
}
use ams_push_server.Environment.{Environment}
use ams_push_server.Proto
use ams_push_server.RetryPolicies.{linear_retry_policy, slow_start_retry_policy}
use ams_push_server.Grpc.{Code, GrpcError, not_found, invalid_argument, already_exists}
use ams_push_server.Grpc.Activation.{IsComplete, IsEndpointFine}

-- The active subscriptions, each under its name.
abbrev pub Registry : Type 0
Registry = Dict Proto.Subscription

pub data Call : Type 0 where
  activate : Proto.ActivateSubscriptionRequest → Call
  deactivate : String → Call
  ask : String → Call

pub data Answer : Type 0 where
  accepted : Answer
  refused : Code → Answer

-- An http endpoint parses, and the retry policy is one of the two that there are.
abbrev pub IsFit : Environment → Proto.PushConfig → Proto.RetryPolicy → Type 0
IsFit env cfg rp =
    IsEndpointFine env cfg × ((rp.type ≡ linear_retry_policy) ⊎ (rp.type ≡ slow_start_retry_policy))

-- How the registry answers a call, and what it is afterwards.
pub data Serves (env : Environment) (reg : Registry) : Call → Answer → Registry → Type 0 where
  adds :
      {r : Proto.ActivateSubscriptionRequest} {sub : Proto.Subscription} {cfg : Proto.PushConfig}
      {rp : Proto.RetryPolicy}
      → IsComplete r sub cfg rp
      → reg sub.full_name ≡ none
      → IsFit env cfg rp
      → Serves env reg (activate r) accepted (assign sub.full_name sub reg)
  rejects_incomplete :
      {r : Proto.ActivateSubscriptionRequest}
      → ((sub : Proto.Subscription) (cfg : Proto.PushConfig) (rp : Proto.RetryPolicy)
          → ¬ (IsComplete r sub cfg rp))
      → Serves env reg (activate r) (refused invalid_argument) reg
  rejects_duplicate :
      {r : Proto.ActivateSubscriptionRequest} {sub : Proto.Subscription} {cfg : Proto.PushConfig}
      {rp : Proto.RetryPolicy} (held : Proto.Subscription)
      → IsComplete r sub cfg rp
      → reg sub.full_name ≡ some held
      → Serves env reg (activate r) (refused already_exists) reg
  rejects_unfit :
      {r : Proto.ActivateSubscriptionRequest} {sub : Proto.Subscription} {cfg : Proto.PushConfig}
      {rp : Proto.RetryPolicy}
      → IsComplete r sub cfg rp
      → reg sub.full_name ≡ none
      → ¬ (IsFit env cfg rp)
      → Serves env reg (activate r) (refused invalid_argument) reg
  removes :
      {name : String} (held : Proto.Subscription)
      → reg name ≡ some held
      → Serves env reg (deactivate name) accepted (delete name reg)
  misses :
      {name : String} → reg name ≡ none → Serves env reg (deactivate name) (refused not_found) reg
  knows :
      {name : String} (held : Proto.Subscription)
      → reg name ≡ some held
      → Serves env reg (ask name) accepted reg
  knows_not : {name : String} → reg name ≡ none → Serves env reg (ask name) (refused not_found) reg

-- What is seen of the service from outside: a call with its answer, or that the service itself gave
-- up the subscription of this name.
pub data Event : Type 0 where
  called : Call → Answer → Event
  given_up : String → Event

-- The registry after a sequence of events, newest first.
pub data Runs (env : Environment) (reg : Registry) : List Event → Registry → Type 0 where
  starts : Runs env reg [] reg
  serves :
      {es : List Event} {reg' reg'' : Registry} {c : Call} {a : Answer}
      → Runs env reg es reg'
      → Serves env reg' c a reg''
      → Runs env reg (called c a ∷ es) reg''
  gives_up :
      {es : List Event} {reg' : Registry} (name : String) (held : Proto.Subscription)
      → Runs env reg es reg'
      → reg' name ≡ some held
      → Runs env reg (given_up name ∷ es) (delete name reg')

-- The answer in a reply.
abbrev pub answer : Result GrpcError String → Answer
answer (ok text) = accepted
answer (err e) = refused e.code
