-- ===== src/Grpc/Handlers.antt =====
-- api/v1/grpc/server.go: what the handlers answer and change, on every branch.
use ams_push_server.Base.{
  some_inj, none_ne, ℕ, String, ◌++◌, ◌≡◌, refl, sym, ap, ◌∙◌, Option, none, some, Result, ok, err,
  arith, Go, returns, go_bind, eqb_iff,
}
use ams_push_server.Environment.{Environment}
use ams_push_server.Proto
use ams_push_server.RetryPolicies
use ams_push_server.RetryPolicies.{RetryPolicy, linear_retry_policy, slow_start_retry_policy}
use ams_push_server.RetryPolicies.Runs.{new-refused}
use ams_push_server.Push.Made.{new_worker, new-ok, new-err}
use ams_push_server.Grpc.{
  PushService, GrpcError, invalid_argument, make_worker, endpoint_error, activate_subscription,
  activate_complete, empty_subscription, installed, is_sub_active,
}
use ams_push_server.Grpc.Activation.{
  IsComplete, IsEndpointFine, IsActivation, incomplete, duplicate, bad_endpoint, unsupported,
  activated,
}

module _ (env : Environment) (ps : PushService) where
  Answered : Proto.ActivateSubscriptionRequest → Go (Result GrpcError String × PushService) → Type 0
  Answered r g =
      (x : Result GrpcError String × PushService) × (g ≡ returns x) × IsActivation env ps r x

  nothing :
      (r : Proto.ActivateSubscriptionRequest)
      → ((sub : Proto.Subscription) (cfg : Proto.PushConfig) (rp : Proto.RetryPolicy)
          → ¬ (IsComplete r sub cfg rp))
      → Answered r (empty_subscription env ps)
  unfolding empty_subscription Answered
  nothing r no_part = (_, refl, incomplete _ no_part refl)

  module _ (r : Proto.ActivateSubscriptionRequest) (sub : Proto.Subscription)
      (cfg : Proto.PushConfig) (rp : Proto.RetryPolicy) (whole : IsComplete r sub cfg rp) where
    installed_as :
        (p : Result String RetryPolicy)
        → RetryPolicies.new rp ≡ p
        → ps.push_workers sub.full_name ≡ none
        → IsEndpointFine env cfg
        → Answered r (
            go_bind
              (make_worker env ps.ams_client sub cfg)
              λ w. returns (installed ps sub.full_name w))
    unfolding Answered make_worker installed
    installed_as (ok p) e free fine = (
      _,
      ap (λ g. go_bind g λ w. returns (installed ps sub.full_name w))
          (new-ok sub _ _ whole.config_is whole.policy_is e),
      activated _ sub cfg rp (new_worker sub _ _ p) whole free fine (record {
        sub_is = refl;
        consumer_is = refl;
        sender_is = refl;
        runs = refl;
        no_error = refl;
        policy = e;
      }),
    )
    installed_as (err t) e free fine = (
      _,
      ap (λ g. go_bind g λ w. returns (installed ps sub.full_name w))
          (new-err sub _ _ whole.config_is whole.policy_is e).1,
      unsupported _ sub cfg rp whole free fine (new-refused rp e).0 (new-refused rp e).1 refl,
    )

    checked :
        (o : Option String)
        → endpoint_error env cfg ≡ o
        → ps.push_workers sub.full_name ≡ none
        → Answered r (elim o [
          | some e ↦ returns (
            err (record { code = invalid_argument; message = "Invalid push endpoint, " ++ e }),
            ps,
          )
          | none ↦
              go_bind
                (make_worker env ps.ams_client sub cfg)
                λ w. returns (installed ps sub.full_name w)
        ])
    unfolding endpoint_error Answered
    checked none e free =
        installed_as (RetryPolicies.new rp) refl free
          (λ h. ground (arith, eqb_iff cfg.type Proto.http_endpoint))
    checked (some t) e free = (
      _,
      refl,
      bad_endpoint _ sub cfg rp t whole free (ground (arith, eqb_iff cfg.type Proto.http_endpoint))
          (ground arith) refl,
    )

    complete-Answered :
        (o : Option ℕ)
        → ps.push_workers sub.full_name ≡ o
        → Answered r (activate_complete env ps sub cfg)
    unfolding activate_complete is_sub_active Answered
    complete-Answered none e = rw (e, is_sub_active) (checked (endpoint_error env cfg) refl e)
    complete-Answered (some i) e =
        rw (e, is_sub_active) (_, refl, duplicate _ sub cfg rp i whole e refl)

  module _ (r : Proto.ActivateSubscriptionRequest) where
    with_policy :
        (sub : Proto.Subscription) (cfg : Proto.PushConfig) (o : Option Proto.RetryPolicy)
        → r.subscription ≡ some sub
        → sub.push_config ≡ some cfg
        → cfg.retry_policy ≡ o
        → Answered r (elim o [
          | none ↦ empty_subscription env ps
          | some rp ↦ activate_complete env ps sub cfg
        ])
    with_policy sub cfg none es ec ep = nothing r λ sub' cfg' rp' w. none_ne (
        sym ep
        ∙ ap (λ x. x.retry_policy)
            (some_inj (
              sym ec
              ∙ ap (λ x. x.push_config) (some_inj (sym es ∙ w.subscription_is))
              ∙ w.config_is))
        ∙ w.policy_is)
    with_policy sub cfg (some rp) es ec ep =
        complete-Answered r sub cfg rp
          (record { subscription_is = es; config_is = ec; policy_is = ep }) _ refl

    with_config :
        (sub : Proto.Subscription) (o : Option Proto.PushConfig)
        → r.subscription ≡ some sub
        → sub.push_config ≡ o
        → Answered r (elim o [
          | none ↦ empty_subscription env ps
          | some cfg ↦ elim cfg.retry_policy [
            | none ↦ empty_subscription env ps
            | some rp ↦ activate_complete env ps sub cfg
          ]
        ])
    with_config sub none es ec = nothing r λ sub' cfg' rp' w.
        none_ne
          (sym ec ∙ ap (λ x. x.push_config) (some_inj (sym es ∙ w.subscription_is)) ∙ w.config_is)
    with_config sub (some cfg) es ec = with_policy sub cfg cfg.retry_policy es ec refl

    with_subscription :
        (o : Option Proto.Subscription)
        → r.subscription ≡ o
        → Answered r (elim o [
          | none ↦ empty_subscription env ps
          | some sub ↦ elim sub.push_config [
            | none ↦ empty_subscription env ps
            | some cfg ↦ elim cfg.retry_policy [
              | none ↦ empty_subscription env ps
              | some rp ↦ activate_complete env ps sub cfg
            ]
          ]
        ])
    with_subscription none es = nothing r λ sub' cfg' rp' w. none_ne (sym es ∙ w.subscription_is)
    with_subscription (some sub) es = with_config sub sub.push_config es refl

    -- A request to activate is always answered, without a panic, in one of the ways of
    -- `IsActivation`: it is refused for the reason and with the code stated there, and changes
    -- nothing, or a new worker of the requested kind is started and added to the map under its name.
    pub activate_subscription-IsActivation :
        (x : Result GrpcError String × PushService) × (activate_subscription env ps r ≡ returns x)
        × IsActivation env ps r x
    unfolding activate_subscription Answered
    activate_subscription-IsActivation = with_subscription r.subscription refl
