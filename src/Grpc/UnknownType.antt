-- ===== src/Grpc/UnknownType.antt =====
-- api/v1/grpc/server.go and push/worker.go: a request with a push type that no sender is made for.
use mathlib.Core.Path.{subst}
use ams_push_server.Base.{
  none_ne, String, ◌≡◌, ◌≢◌, ◌⊎◌, inl, inr, sym, ap, ◌∙◌, none, Result, ok, arith, returns, panics,
  eqb_iff,
}
use ams_push_server.Environment.{Environment, History}
use ams_push_server.Proto
use ams_push_server.Ams.Types.{ReceivedMessagesList}
use ams_push_server.Consumers
use ams_push_server.Senders
use ams_push_server.RetryPolicies.{linear_retry_policy, slow_start_retry_policy}
use ams_push_server.Push.{push, Worker}
use ams_push_server.Push.NilSender.{nil_sender_panics}
use ams_push_server.Grpc.{PushService, GrpcError, add_worker, activate_subscription}
use ams_push_server.Grpc.Activation.{
  IsComplete, IsNewFor, IsActivation, incomplete, duplicate, bad_endpoint, unsupported, activated,
  same_sub, same_config, same_policy,
}
use ams_push_server.Grpc.Handlers.{activate_subscription-IsActivation}

no_sender :
    (env : Environment) (cfg : Proto.PushConfig)
    → cfg.type ≢ Proto.http_endpoint
    → cfg.type ≢ Proto.mattermost
    → Senders.new env cfg ≡ none
unfolding Senders.new
no_sender env cfg a b =
    ground (arith, eqb_iff cfg.type Proto.http_endpoint, eqb_iff cfg.type Proto.mattermost)

module _ (env : Environment) (ps : PushService) (r : Proto.ActivateSubscriptionRequest)
    {sub : Proto.Subscription} {cfg : Proto.PushConfig} {rp : Proto.RetryPolicy}
    (whole : IsComplete r sub cfg rp) where
  -- The request is accepted, and the worker that is started for it panics.
  abbrev pub AcceptsAndPanics : String → History → Result GrpcError String × PushService → Type 0
  AcceptsAndPanics now h x =
      (w : Worker History) × (message : String) × (x ≡ (ok message, add_worker ps sub.full_name w))
      × (push env.base64_decode now w h ≡ panics)

  with_worker :
      (now : String) (h h' : History) {rml : ReceivedMessagesList} (w : Worker History)
      → cfg.type ≢ Proto.http_endpoint
      → cfg.type ≢ Proto.mattermost
      → Consumers.consume env
          (record { full_sub = sub.full_name; ams_client = ps.ams_client })
          cfg.max_messages
          h
        ≡ (ok rml, h')
      → IsNewFor env ps.ams_client sub cfg rp w
      → push env.base64_decode now w h ≡ panics
  with_worker now h h' w a b received new =
      nil_sender_panics env.base64_decode now w h h'
        (ap (λ s. s.push_config) new.sub_is ∙ whole.config_is)
        (new.sender_is ∙ no_sender env cfg a b)
        (ap (λ c. c.consume cfg.max_messages h) new.consumer_is ∙ received)

  with_activation :
      (now : String) (h h' : History) {rml : ReceivedMessagesList}
      {x : Result GrpcError String × PushService}
      → ps.push_workers sub.full_name ≡ none
      → (rp.type ≡ linear_retry_policy) ⊎ (rp.type ≡ slow_start_retry_policy)
      → cfg.type ≢ Proto.http_endpoint
      → cfg.type ≢ Proto.mattermost
      → Consumers.consume env
          (record { full_sub = sub.full_name; ams_client = ps.ams_client })
          cfg.max_messages
          h
        ≡ (ok rml, h')
      → IsActivation env ps r x
      → AcceptsAndPanics now h x
  with_activation now h h' free known a b received (incomplete e n k) = absurd (n sub cfg rp whole)
  with_activation now h h' free known a b received (duplicate e sub' cfg' rp' i w held k) =
      absurd
        (none_ne (sym free ∙ ap (λ s. ps.push_workers s.full_name) (sym (same_sub whole w)) ∙ held))
  with_activation now h h' free known a b received (bad_endpoint e sub' cfg' rp' t w f y u k) =
      absurd (a (ap (λ c. c.type) (sym (same_config whole w)) ∙ y))
  with_activation now h h' free (inl l) a b received (unsupported e sub' cfg' rp' w f y u s k) =
      absurd (u (ap (λ p. p.type) (same_policy whole w) ∙ l))
  with_activation now h h' free (inr l) a b received (unsupported e sub' cfg' rp' w f y u s k) =
      absurd (s (ap (λ p. p.type) (same_policy whole w) ∙ l))
  with_activation now h h' free known a b received
        (activated message sub' cfg' rp' v w f fine new) =
      (
        v,
        message,
        ap (λ s. (ok message, add_worker ps s.full_name v)) (same_sub whole w),
        with_worker now h h' v a b received (
            subst
              (λ (t : Proto.Subscription × Proto.PushConfig × Proto.RetryPolicy).
                IsNewFor env ps.ams_client t.0 t.1 t.2 v)
              (λ i. (same_sub whole w i, same_config whole w i, same_policy whole w i)) new),
      )

  -- A complete request for an inactive subscription, with a known retry policy and a push type that
  -- is neither http_endpoint nor mattermost, is accepted, and its worker, which has no sender, panics
  -- in a cycle that receives messages.
  pub unknown_type_panics :
      (now : String) (h h' : History) (rml : ReceivedMessagesList)
      → ps.push_workers sub.full_name ≡ none
      → (rp.type ≡ linear_retry_policy) ⊎ (rp.type ≡ slow_start_retry_policy)
      → cfg.type ≢ Proto.http_endpoint
      → cfg.type ≢ Proto.mattermost
      → Consumers.consume env
          (record { full_sub = sub.full_name; ams_client = ps.ams_client })
          cfg.max_messages
          h
        ≡ (ok rml, h')
      → (x : Result GrpcError String × PushService) × (activate_subscription env ps r ≡ returns x)
        × AcceptsAndPanics now h x
  unknown_type_panics now h h' rml free known a b received =
      let (x, e, act) = activate_subscription-IsActivation env ps r in
      (x, e, with_activation now h h' free known a b received act)
