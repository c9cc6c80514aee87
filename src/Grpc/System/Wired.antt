-- ===== src/Grpc/System/Wired.antt =====
-- api/v1/grpc/server.go and push/worker.go: every worker of the running service has the consumer and
-- the sender of its subscription, and a timer in the state that its loop needs.
use mathlib.Core.Path.{subst}
use ams_push_server.Base.{
  ℕ, String, ◌≡◌, inl, inr, sym, ap, ◌∙◌, some, some_inj, Option, Result, returns, returns_inj, [],
  eqb, Bool-cases,
}
use ams_push_server.Environment.{Environment, History}
use ams_push_server.Proto
use ams_push_server.Ams.{Client}
use ams_push_server.Config.{Config}
use ams_push_server.Consumers.{ams_http_consumer}
use ams_push_server.Senders
use ams_push_server.Push.Loop.{Loop, start, cancel, resume, resumes, own}
use ams_push_server.Push.Loop.Sound.{IsSound, cancel-IsSound, Step-IsSound}
use ams_push_server.Push.Loop.Armed.{new-IsArmed}
use ams_push_server.Push.Loop.Wiring.{
  SameWiring, OwnStep-SameWiring, cancel-SameWiring, resume-SameWiring,
}
use ams_push_server.Grpc.{
  PushService, GrpcError, update, add_worker, remove_worker, new_push_service, stop_subscription,
}
use ams_push_server.Push.{Worker}
use ams_push_server.Grpc.Activation.{
  IsActivation, IsNewFor, incomplete, duplicate, bad_endpoint, unsupported, activated,
}
use ams_push_server.Grpc.Handlers.{activate_subscription-IsActivation}
use ams_push_server.Grpc.Stopping.{
  IsDeactivation, was_inactive, stopped, stop_subscription-IsDeactivation,
}
use ams_push_server.Grpc.System.{
  System, Step, activates, deactivates, loads, runs, receives, handles, Reach, here, next,
}
use ams_push_server.Grpc.System.Coherence.{IsCoherent, new_push_service-IsCoherent}
use ams_push_server.Grpc.System.Reachable.{initial, Reach-IsCoherent, deactivate_subscription-stops}

-- The worker is one that was made for its subscription, with this client.
pub record IsWired (env : Environment) (client : Client) (l : Loop History) : Type 0 where
  pub cfg : Proto.PushConfig
  pub config_is : l.worker.sub.push_config ≡ some cfg
  pub consumer_is :
      l.worker.consumer
      ≡ ams_http_consumer env (record { full_sub = l.worker.sub.full_name; ams_client = client })
  pub sender_is : l.worker.sender ≡ Senders.new env cfg
  pub sound : IsSound l

abbrev pub AllWired : Environment → PushService → Type 0
AllWired env ps = (i : ℕ) (l : Loop History) → ps.loops i ≡ some l → IsWired env ps.ams_client l

module _ {env : Environment} where
  IsWired-kept :
      {client : Client} {l l' : Loop History}
      → SameWiring l.worker l'.worker
      → IsSound l'
      → IsWired env client l
      → IsWired env client l'
  IsWired-kept {client} k sound w = record {
    cfg = w.cfg;
    config_is = ap (λ x. x.push_config) k.sub_kept ∙ w.config_is;
    consumer_is =
        k.consumer_kept
        ∙ w.consumer_is
        ∙ ap (λ x. ams_http_consumer env (record { full_sub = x.full_name; ams_client = client }))
            (sym k.sub_kept);
    sender_is = k.sender_kept ∙ w.sender_is;
    sound = sound;
  }

  -- Putting a loop that is wired among loops that are.
  update-AllWired :
      (client : Client) (loops : ℕ → Option (Loop History)) (i : ℕ) (l : Loop History)
      → ((j : ℕ) (k : Loop History) → loops j ≡ some k → IsWired env client k)
      → IsWired env client l
      → (j : ℕ) (k : Loop History) → update i l loops j ≡ some k
      → IsWired env client k
  update-AllWired client loops i l all w j k e = elim (Bool-cases (eqb i j)) [
    | inl same ↦ subst (IsWired env client) (some_inj (rw same at e)) w
    | inr other ↦ all j k (rw other at e)
  ]

  IsNewFor-IsWired :
      {client : Client} {sub : Proto.Subscription} {cfg : Proto.PushConfig} {rp : Proto.RetryPolicy}
      {w : Worker History}
      → sub.push_config ≡ some cfg
      → IsNewFor env client sub cfg rp w
      → IsWired env client (start w)
  IsNewFor-IsWired {client} {sub} {cfg} {rp} config_is n = record {
    cfg = cfg;
    config_is = ap (λ x. x.push_config) n.sub_is ∙ config_is;
    consumer_is =
        n.consumer_is
        ∙ ap (λ x. ams_http_consumer env (record { full_sub = x.full_name; ams_client = client }))
            (sym n.sub_is);
    sender_is = n.sender_is;
    sound = new-IsArmed rp n.policy;
  }

  IsActivation-AllWired :
      {ps : PushService} {r : Proto.ActivateSubscriptionRequest}
      {x : Result GrpcError String × PushService}
      → IsActivation env ps r x
      → AllWired env ps
      → AllWired env x.1
  unfolding add_worker
  IsActivation-AllWired (incomplete e n k) c = c
  IsActivation-AllWired (duplicate e sub cfg rp i w h k) c = c
  IsActivation-AllWired (bad_endpoint e sub cfg rp t w h y u k) c = c
  IsActivation-AllWired (unsupported e sub cfg rp w h f l s k) c = c
  IsActivation-AllWired {ps = ps} (activated message sub cfg rp w whole free fine new) c =
      update-AllWired ps.ams_client ps.loops ps.started (start w) c
        (IsNewFor-IsWired whole.config_is new)

  IsDeactivation-AllWired :
      {ps : PushService} {name : String} {x : Option String × PushService}
      → IsDeactivation ps name x
      → AllWired env ps
      → AllWired env x.1
  unfolding remove_worker
  IsDeactivation-AllWired (was_inactive t e) c = c
  IsDeactivation-AllWired {ps} {name} (stopped i l ps' e at s same) c =
      subst (AllWired env) (sym same) (
        update-AllWired ps.ams_client ps.loops i (cancel l) c
          (IsWired-kept (cancel-SameWiring l) (cancel-IsSound l (c i l at).sound) (c i l at)))

  stop_subscription-AllWired :
      (ps : PushService) (name : String) {o : Option String} {ps' : PushService}
      → stop_subscription ps name ≡ returns (o, ps')
      → IsCoherent ps
      → AllWired env ps
      → AllWired env ps'
  stop_subscription-AllWired ps name e c w =
      let (x, e', d) = stop_subscription-IsDeactivation ps c name in
      subst (AllWired env) (ap (λ y. y.1) (returns_inj (sym e' ∙ e))) (IsDeactivation-AllWired d w)

  -- Every step of the running service keeps its workers wired.
  Step-AllWired :
      {s t : System}
      → Step env s t
      → IsCoherent s.service
      → AllWired env s.service
      → AllWired env t.service
  Step-AllWired {s} (activates r e) c w =
      let (x, e', a) = activate_subscription-IsActivation env s.service r in
      subst (AllWired env) (ap (λ y. y.1) (returns_inj (sym e' ∙ e))) (IsActivation-AllWired a w)
  Step-AllWired {s} (deactivates r e) c w =
      let (o, stop) = deactivate_subscription-stops s.service r e in
      stop_subscription-AllWired s.service r.full_name stop c w
  Step-AllWired (loads text) c w = w
  Step-AllWired {s} (runs i l {l' = l'} at own_step) c w =
      update-AllWired s.service.ams_client s.service.loops i l' w (
        IsWired-kept (OwnStep-SameWiring own_step)
          (Step-IsSound env.base64_decode (own own_step) (w i l at).sound) (w i l at))
  Step-AllWired {s} (receives i l ce h at ph) c w =
      update-AllWired s.service.ams_client s.service.loops i (resume l) w (
        IsWired-kept (resume-SameWiring l)
          (Step-IsSound env.base64_decode {l = l} {world = []} (resumes ce ph) (w i l at).sound)
          (w i l at))
  Step-AllWired {s} (handles ce h e) c w = stop_subscription-AllWired s.service ce.resource e c w

  Reach-AllWired :
      {s t : System}
      → Reach env s t
      → IsCoherent s.service
      → AllWired env s.service
      → AllWired env t.service
  Reach-AllWired here c w = w
  Reach-AllWired (next r st) c w = Step-AllWired st (Reach-IsCoherent r c) (Reach-AllWired r c w)

new_push_service-AllWired :
    (env : Environment) (cfg : Config) → AllWired env (new_push_service env cfg)
unfolding new_push_service
new_push_service-AllWired env cfg i l e = cc

-- However the service, from its start on, came to its state, every worker that was started, and not
-- only those in the map, still has the subscription's configuration, consumes that subscription with
-- the service's client, and sends through the sender of that configuration; and the timer of its loop
-- is armed at the select statement and spent elsewhere.
pub started_worker-IsWired :
    (env : Environment) (cfg : Config) (h : History) (s : System) (i : ℕ) (l : Loop History)
    → Reach env (initial env cfg h) s
    → s.service.loops i ≡ some l
    → IsWired env s.service.ams_client l
started_worker-IsWired env cfg h s i l reached at =
    Reach-AllWired reached (new_push_service-IsCoherent env cfg) (new_push_service-AllWired env cfg)
      i l at
