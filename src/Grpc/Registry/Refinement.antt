-- ===== src/Grpc/Registry/Refinement.antt =====
-- api/v1/grpc/server.go: the running service behaves as the registry of its active subscriptions.
use mathlib.Core.Path.{subst}
use ams_push_server.Base.{
  String, ◌≡◌, refl, sym, ap, ◌∙◌, List, [], ◌∷◌, append, Option, none, some, none_ne, Result,
  returns, go_bind, returns_inj, inl, inr, empty, assign,
}
use ams_push_server.Environment.{Environment, History}
use ams_push_server.Proto
use ams_push_server.Config.{Config}
use ams_push_server.RetryPolicies.Runs.{new-known}
use ams_push_server.Push.Loop.{resume, next_round}
use ams_push_server.Push.Loop.Sound.{OwnStep-keeps}
use ams_push_server.Grpc.{
  PushService, GrpcError, new_push_service, activate_subscription, deactivate_subscription,
  deactivated, stop_subscription, subscription_status,
}
use ams_push_server.Grpc.Activation.{
  IsActivation, incomplete, duplicate, bad_endpoint, unsupported, activated,
}
use ams_push_server.Grpc.Handlers.{activate_subscription-IsActivation}
use ams_push_server.Grpc.Stopping.{
  IsDeactivation, was_inactive, stopped, stop_subscription-IsDeactivation, StatusOf, unknown, known,
  subscription_status-StatusOf,
}
use ams_push_server.Grpc.System.{
  System, Step, activates, deactivates, loads, runs, receives, handles,
}
use ams_push_server.Grpc.System.Coherence.{IsCoherent, new_push_service-IsCoherent}
use ams_push_server.Grpc.System.Reachable.{initial, Step-IsCoherent}
use ams_push_server.Grpc.Registry.{
  Registry, Call, activate, deactivate, ask, refused, accepted, Serves, adds, rejects_incomplete,
  rejects_duplicate, rejects_unfit, removes, misses, knows, knows_not, Event, called, given_up,
  Runs, starts, serves, gives_up, answer,
}
use ams_push_server.Grpc.Registry.View.{
  view, view-none, view-some, view-replace, view-add_worker, view-remove_worker,
}

-- What is seen when `handleDeactivateChannel` stops a subscription, with or without an error.
abbrev pub gave_up : String → Option String → List Event
gave_up name none = given_up name ∷ []
gave_up name (some error) = []

-- What is seen of a step: the steps of a worker, of the reader of the channel, and the writes of the
-- status, are silent.
abbrev pub seen : {env : Environment} {s t : System} → Step env s t → List Event
seen (activates {reply = reply} r e) = called (activate r) (answer reply) ∷ []
seen (deactivates {reply = reply} r e) = called (deactivate r.full_name) (answer reply) ∷ []
seen (loads text) = []
seen (runs i l at own) = []
seen (receives i l ce idle at waits) = []
seen (handles {error = error} ce taken e) = gave_up ce.resource error

-- A run of the service with what is seen of it, newest first.
pub data Trace (env : Environment) (s : System) : List Event → System → Type 0 where
  begins : Trace env s [] s
  steps :
      {es : List Event} {t u : System}
      → Trace env s es t
      → (st : Step env t u) → Trace env s (append (seen st) es) u
  asks :
      {es : List Event} {t : System} {reply : Result GrpcError String}
      (r : Proto.SubscriptionStatusRequest)
      → Trace env s es t
      → subscription_status t.service r ≡ returns reply
      → Trace env s (called (ask r.full_name) (answer reply) ∷ es) t

module _ (env : Environment) (ps : PushService) (c : IsCoherent ps) where
  abbrev ServedAs : Call → Result GrpcError String × PushService → Type 0
  ServedAs call x = Serves env (view ps) call (answer x.0) (view x.1)

  IsActivation-Serves :
      {r : Proto.ActivateSubscriptionRequest} {x : Result GrpcError String × PushService}
      → IsActivation env ps r x
      → ServedAs (activate r) x
  IsActivation-Serves {r} (incomplete e n k) =
      subst (λ code. Serves env (view ps) (activate r) (refused code) (view ps)) (sym k)
        (rejects_incomplete n)
  IsActivation-Serves {r} (duplicate e sub cfg rp i w held k) =
      let (l, at, _, _) = c.mapped sub.full_name i held in
      subst (λ code. Serves env (view ps) (activate r) (refused code) (view ps)) (sym k)
        (rejects_duplicate l.worker.sub w (view-some ps held at))
  IsActivation-Serves {r} (bad_endpoint e sub cfg rp t w free http bad k) =
      subst (λ code. Serves env (view ps) (activate r) (refused code) (view ps)) (sym k)
        (rejects_unfit w (view-none ps sub.full_name free) λ fit. none_ne (sym (fit.0 http) ∙ bad))
  IsActivation-Serves {r} (unsupported e sub cfg rp w free fine not_linear not_slow k) =
      subst (λ code. Serves env (view ps) (activate r) (refused code) (view ps)) (sym k)
        (rejects_unfit w (view-none ps sub.full_name free) λ fit. elim fit.1 [
          | inl is_linear ↦ not_linear is_linear
          | inr is_slow ↦ not_slow is_slow
        ])
  IsActivation-Serves {r} (activated message sub cfg rp w whole free fine new) =
      subst (λ reg. Serves env (view ps) (activate r) accepted reg)
        (sym (
          view-add_worker ps sub.full_name w c
          ∙ ap (λ s. assign sub.full_name s (view ps)) new.sub_is))
        (adds whole (view-none ps sub.full_name free) (fine, new-known rp new.policy))

  activate-Serves :
      (r : Proto.ActivateSubscriptionRequest) {x : Result GrpcError String × PushService}
      → activate_subscription env ps r ≡ returns x
      → ServedAs (activate r) x
  activate-Serves r e =
      let (y, e', a) = activate_subscription-IsActivation env ps r in
      subst (ServedAs (activate r)) (returns_inj (sym e' ∙ e)) (IsActivation-Serves a)

  IsDeactivation-Serves :
      {name : String} {x : Option String × PushService}
      → IsDeactivation ps name x
      → ServedAs (deactivate name) (deactivated name x)
  unfolding deactivated
  IsDeactivation-Serves {name} (was_inactive t free) = misses (view-none ps name free)
  IsDeactivation-Serves {name} (stopped i l ps' held at s same) =
      subst (λ reg. Serves env (view ps) (deactivate name) accepted reg)
        (sym (ap view same ∙ view-remove_worker ps name i l at))
        (removes l.worker.sub (view-some ps held at))

  deactivate-Serves :
      (r : Proto.DeactivateSubscriptionRequest) {x : Result GrpcError String × PushService}
      → deactivate_subscription ps r ≡ returns x
      → ServedAs (deactivate r.full_name) x
  unfolding deactivate_subscription
  deactivate-Serves r e =
      let (y, e', d) = stop_subscription-IsDeactivation ps c r.full_name in
      subst (ServedAs (deactivate r.full_name))
        (returns_inj (sym (ap (λ g. go_bind g λ z. returns (deactivated r.full_name z)) e') ∙ e))
        (IsDeactivation-Serves d)

  status-Serves :
      (r : Proto.SubscriptionStatusRequest) {reply : Result GrpcError String}
      → subscription_status ps r ≡ returns reply
      → ServedAs (ask r.full_name) (reply, ps)
  status-Serves r e =
      let (y, e', k) = subscription_status-StatusOf ps c r.full_name in
      subst (λ z. ServedAs (ask r.full_name) (z, ps)) (returns_inj (sym e' ∙ e)) (told k)
    where
      told :
          {z : Result GrpcError String}
          → StatusOf ps r.full_name z
          → ServedAs (ask r.full_name) (z, ps)
      told (unknown f free k) =
          subst (λ code. Serves env (view ps) (ask r.full_name) (refused code) (view ps)) (sym k)
            (knows_not (view-none ps r.full_name free))
      told (known i l held at live named) = knows l.worker.sub (view-some ps held at)

  IsDeactivation-Runs :
      {reg : Registry} {es : List Event} {name : String} {x : Option String × PushService}
      → IsDeactivation ps name x
      → Runs env reg es (view ps)
      → Runs env reg (append (gave_up name x.0) es) (view x.1)
  IsDeactivation-Runs (was_inactive t free) r = r
  IsDeactivation-Runs {reg} {es} {name} (stopped i l ps' held at s same) r =
      subst (λ reg'. Runs env reg (given_up name ∷ es) reg')
        (sym (ap view same ∙ view-remove_worker ps name i l at))
        (gives_up name l.worker.sub r (view-some ps held at))

  stop-Runs :
      {reg : Registry} {es : List Event} (name : String) {x : Option String × PushService}
      → stop_subscription ps name ≡ returns x
      → Runs env reg es (view ps)
      → Runs env reg (append (gave_up name x.0) es) (view x.1)
  stop-Runs {reg} {es} name e r =
      let (y, e', d) = stop_subscription-IsDeactivation ps c name in
      subst (λ z. Runs env reg (append (gave_up name z.0) es) (view z.1)) (returns_inj (sym e' ∙ e))
        (IsDeactivation-Runs d r)

Step-Runs :
    {env : Environment} {reg : Registry} {es : List Event} {s t : System} (st : Step env s t)
    → IsCoherent s.service
    → Runs env reg es (view s.service)
    → Runs env reg (append (seen st) es) (view t.service)
Step-Runs {env} {s = s} (activates r e) c run = serves run (activate-Serves env s.service c r e)
Step-Runs {env} {s = s} (deactivates r e) c run = serves run (deactivate-Serves env s.service c r e)
Step-Runs (loads text) c run = run
Step-Runs {env} {reg} {es} {s} (runs i l {l' = l'} at own) c run =
    subst (Runs env reg es)
      (sym (view-replace s.service i l l' at (OwnStep-keeps env.base64_decode own).0)) run
Step-Runs {env} {reg} {es} {s} (receives i l ce idle at waits) c run =
    subst (Runs env reg es)
      (sym (view-replace s.service i l (resume l) at (unfold resume next_round in refl))) run
Step-Runs {env} {s = s} (handles ce taken e) c run = stop-Runs env s.service c ce.resource e run

Trace-Runs :
    {env : Environment} {s t : System} {es : List Event}
    → Trace env s es t
    → IsCoherent s.service
    → IsCoherent t.service × Runs env (view s.service) es (view t.service)
Trace-Runs begins c = (c, starts)
Trace-Runs (steps tr st) c =
    let (c', run) = Trace-Runs tr c in (Step-IsCoherent st c', Step-Runs st c' run)
Trace-Runs {env} (asks {t = t} r tr e) c =
    let (c', run) = Trace-Runs tr c in (c', serves run (status-Serves env t.service c' r e))

-- From the start of the service on, with every handler, status request, push cycle and reaction to an
-- error as one step, and however these steps follow each other: the calls that reach their handlers,
-- those of the loading among them, are answered as the registry answers them that has no subscription
-- at first and loses one when the service gives it up; and after each step the registry is what the
-- service's map and workers hold.
pub service_is_registry :
    (env : Environment) (cfg : Config) (h : History) {t : System} {es : List Event}
    → Trace env (initial env cfg h) es t
    → Runs env empty es (view t.service)
unfolding new_push_service
service_is_registry env cfg h tr = (Trace-Runs tr (new_push_service-IsCoherent env cfg)).1
