-- ===== src/Grpc/System/Reachable.antt =====
-- api/v1/grpc/server.go and push/worker.go: what holds of the service however its goroutines
-- interleave.
use mathlib.Core.Path.{subst}
use ams_push_server.Base.{
  some_inj, ℕ, String, ◌≡◌, refl, sym, ap, ◌∙◌, false, Option, none, some, Result, returns,
  go_bind-returns, returns_inj,
}
use ams_push_server.Environment.{Environment, History}
use ams_push_server.Proto
use ams_push_server.Config.{Config}
use ams_push_server.Push.Loop.{Loop, resume, next_round}
use ams_push_server.Push.Loop.Sound.{OwnStep-keeps}
use ams_push_server.Grpc.{
  PushService, GrpcError, new_push_service, activate_subscription, deactivate_subscription,
  deactivated, stop_subscription,
}
use ams_push_server.Grpc.Activation.{
  IsActivation, incomplete, duplicate, bad_endpoint, unsupported, activated,
}
use ams_push_server.Grpc.Handlers.{activate_subscription-IsActivation}
use ams_push_server.Grpc.Stopping.{
  IsDeactivation, was_inactive, stopped, stop_subscription-IsDeactivation,
}
use ams_push_server.Grpc.System.{
  System, Step, activates, deactivates, loads, runs, receives, handles, Reach, here, next,
}
use ams_push_server.Grpc.System.Coherence.{
  IsCoherent, name_of, new_push_service-IsCoherent, add_worker-IsCoherent, remove_worker-IsCoherent,
  replace_loop-IsCoherent,
}

pub IsActivation-IsCoherent :
    {env : Environment} {ps : PushService} {r : Proto.ActivateSubscriptionRequest}
    {x : Result GrpcError String × PushService}
    → IsActivation env ps r x
    → IsCoherent ps
    → IsCoherent x.1
IsActivation-IsCoherent (incomplete e n k) c = c
IsActivation-IsCoherent (duplicate e sub cfg rp i w h k) c = c
IsActivation-IsCoherent (bad_endpoint e sub cfg rp t w h y u k) c = c
IsActivation-IsCoherent (unsupported e sub cfg rp w h f l s k) c = c
IsActivation-IsCoherent {ps = ps} (activated message sub cfg rp w whole free fine new) c =
    add_worker-IsCoherent ps sub.full_name w c free (ap (λ s. s.full_name) new.sub_is) new.runs

activate_subscription-IsCoherent :
    (env : Environment) (ps : PushService) (r : Proto.ActivateSubscriptionRequest)
    {reply : Result GrpcError String} {ps' : PushService}
    → activate_subscription env ps r ≡ returns (reply, ps')
    → IsCoherent ps
    → IsCoherent ps'
activate_subscription-IsCoherent env ps r e c =
    let (x, e', a) = activate_subscription-IsActivation env ps r in
    subst IsCoherent (ap (λ y. y.1) (returns_inj (sym e' ∙ e))) (IsActivation-IsCoherent a c)

IsDeactivation-IsCoherent :
    {ps : PushService} {name : String} {x : Option String × PushService}
    → IsDeactivation ps name x
    → IsCoherent ps
    → IsCoherent x.1
IsDeactivation-IsCoherent (was_inactive t e) c = c
IsDeactivation-IsCoherent {ps} {name} (stopped i l ps' e at s same) c =
    subst IsCoherent (sym same) (remove_worker-IsCoherent ps name i l c e at)

stop_subscription-IsCoherent :
    (ps : PushService) (name : String) {o : Option String} {ps' : PushService}
    → stop_subscription ps name ≡ returns (o, ps')
    → IsCoherent ps
    → IsCoherent ps'
stop_subscription-IsCoherent ps name e c =
    let (x, e', d) = stop_subscription-IsDeactivation ps c name in
    subst IsCoherent (ap (λ y. y.1) (returns_inj (sym e' ∙ e))) (IsDeactivation-IsCoherent d c)

deactivated-service :
    (name : String) (x : Option String × PushService) → (deactivated name x).1 ≡ x.1
unfolding deactivated
deactivated-service name (some e, ps) = refl
deactivated-service name (none, ps) = refl

-- A request to deactivate that returns has stopped the subscription that it names.
pub deactivate_subscription-stops :
    (ps : PushService) (r : Proto.DeactivateSubscriptionRequest) {reply : Result GrpcError String}
    {ps' : PushService}
    → deactivate_subscription ps r ≡ returns (reply, ps')
    → (o : Option String) × (stop_subscription ps r.full_name ≡ returns (o, ps'))
unfolding deactivate_subscription
deactivate_subscription-stops ps r e =
    let (x, s, d) = go_bind-returns _ (λ x. returns (deactivated r.full_name x)) e in
    let same = sym (deactivated-service r.full_name x) ∙ ap (λ y. y.1) (returns_inj d) in
    (x.0, s ∙ ap (λ p. returns (x.0, p)) same)

-- Every step of the running service keeps the map of workers and the running workers in agreement,
-- if they agree before it.
pub Step-IsCoherent :
    {env : Environment} {s t : System} → Step env s t → IsCoherent s.service → IsCoherent t.service
Step-IsCoherent {env} {s} (activates r e) c = activate_subscription-IsCoherent env s.service r e c
Step-IsCoherent {env} {s} (deactivates r e) c =
    let (o, stop) = deactivate_subscription-stops s.service r e in
    stop_subscription-IsCoherent s.service r.full_name stop c
Step-IsCoherent (loads text) c = record { mapped = c.mapped; live = c.live; counted = c.counted }
Step-IsCoherent {env} {s} (runs i l {l' = l'} at own) c =
    let (k, u) = OwnStep-keeps env.base64_decode own in
    replace_loop-IsCoherent s.service i l l' c at k u
Step-IsCoherent {env} {s} (receives i l ce h at ph) c =
    replace_loop-IsCoherent s.service i l (resume l) c at (unfold resume next_round in refl)
      (unfold resume next_round in refl)
Step-IsCoherent {env} {s} (handles ce h e) c =
    stop_subscription-IsCoherent s.service ce.resource e c

pub Reach-IsCoherent :
    {env : Environment} {s t : System} → Reach env s t → IsCoherent s.service → IsCoherent t.service
Reach-IsCoherent here c = c
Reach-IsCoherent (next r st) c = Step-IsCoherent st (Reach-IsCoherent r c)

pub Reach-trans :
    {env : Environment} {s t u : System} → Reach env s t → Reach env t u → Reach env s u
Reach-trans a here = a
Reach-trans a (next b step) = next (Reach-trans a b) step

-- The service when it starts, over the requests that were sent before.
abbrev pub initial : Environment → Config → History → System
initial env cfg h = record { service = new_push_service env cfg; world = h; handling = none }

-- From the start of the service on, however the handlers, the steps of the workers and the reader
-- of the deactivation channel follow each other, each being one step, two workers that were not
-- stopped never serve the same subscription.
pub one_worker_per_subscription :
    (env : Environment) (cfg : Config) (h : History) (s : System) (i j : ℕ) (l k : Loop History)
    → Reach env (initial env cfg h) s
    → s.service.loops i ≡ some l
    → s.service.loops j ≡ some k
    → l.worker.cancelled ≡ false
    → k.worker.cancelled ≡ false
    → name_of l ≡ name_of k
    → i ≡ j
one_worker_per_subscription env cfg h s i j l k r at at' u u' same =
    let c = Reach-IsCoherent r (new_push_service-IsCoherent env cfg) in
    some_inj (sym (c.live i l at u) ∙ ap s.service.push_workers same ∙ c.live j k at' u')
