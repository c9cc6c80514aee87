-- ===== src/Grpc/Accepted.antt =====
-- api/v1/grpc/server.go: what a request to activate has done that was accepted.
use mathlib.Core.Path.{subst}
use ams_push_server.Base.{
  err_ne, String, ◌≡◌, refl, sym, ap, ◌∙◌, none, Result, ok, returns, returns_inj,
}
use ams_push_server.Environment.{Environment, History}
use ams_push_server.Proto
use ams_push_server.Push.{Worker}
use ams_push_server.Grpc.{PushService, GrpcError, add_worker, activate_subscription}
use ams_push_server.Grpc.Activation.{
  IsComplete, IsActivation, IsNewFor, same_config, same_policy, incomplete, duplicate, bad_endpoint,
  unsupported, activated, same_sub,
}
use ams_push_server.Grpc.Handlers.{activate_subscription-IsActivation}

-- The name was free, and now has a worker that was made for the request.
pub record IsAdded (env : Environment) (ps : PushService) (sub : Proto.Subscription)
    (cfg : Proto.PushConfig) (rp : Proto.RetryPolicy) (ps1 : PushService) : Type 0 where
  pub worker : Worker History
  pub was_free : ps.push_workers sub.full_name ≡ none
  pub added : ps1 ≡ add_worker ps sub.full_name worker
  pub made : IsNewFor env ps.ams_client sub cfg rp worker

module _ (env : Environment) (ps : PushService) (r : Proto.ActivateSubscriptionRequest)
    {sub : Proto.Subscription} {cfg : Proto.PushConfig} {rp : Proto.RetryPolicy}
    (whole : IsComplete r sub cfg rp) where
  IsActivation-IsAdded :
      {x : Result GrpcError String × PushService} {m : String}
      → x.0 ≡ ok m
      → IsActivation env ps r x
      → IsAdded env ps sub cfg rp x.1
  IsActivation-IsAdded e (incomplete g n k) = absurd (err_ne e)
  IsActivation-IsAdded e (duplicate g sub' cfg' rp' i w held k) = absurd (err_ne e)
  IsActivation-IsAdded e (bad_endpoint g sub' cfg' rp' t w f y u k) = absurd (err_ne e)
  IsActivation-IsAdded e (unsupported g sub' cfg' rp' w f y u s k) = absurd (err_ne e)
  IsActivation-IsAdded e (activated message sub' cfg' rp' w whole' free fine new) =
      let ps1 = add_worker ps sub'.full_name w in
      subst (λ s. IsAdded env ps s cfg rp ps1) (same_sub whole whole')
        (subst (λ c. IsAdded env ps sub' c rp ps1) (same_config whole whole')
          (subst (λ p. IsAdded env ps sub' cfg' p ps1) (same_policy whole whole')
            (record { worker = w; was_free = free; added = refl; made = new })))

  -- A complete request that is accepted has added a worker of its subscription, and nothing else.
  pub activate_subscription-IsAdded :
      {m : String} {ps1 : PushService}
      → activate_subscription env ps r ≡ returns (ok m, ps1)
      → IsAdded env ps sub cfg rp ps1
  activate_subscription-IsAdded e =
      let (x, e', a) = activate_subscription-IsActivation env ps r in
      let same = returns_inj (sym e' ∙ e) in
      subst (IsAdded env ps sub cfg rp) (ap (λ y. y.1) same)
        (IsActivation-IsAdded (ap (λ y. y.0) same) a)
