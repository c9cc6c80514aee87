-- ===== src/Grpc/Fleet/Earned.antt =====
-- push/worker.go: no worker acknowledges a message that it has not delivered, however the workers
-- interleave.
use mathlib.Core.Path.{subst}
use ams_push_server.Base.{
  Option-cases, ℕ, ◌≡◌, refl, some, none_ne, some_inj, ok, returns, eqb, Bool-cases, inl, inr,
}
use ams_push_server.Environment.{Environment, History}
use ams_push_server.Proto
use ams_push_server.Ams.{Client}
use ams_push_server.Ams.Types.{ReceivedMessage}
use ams_push_server.Ams.Growth.{same, sent}
use ams_push_server.Consumers.{AmsHttpConsumer, ams_http_consumer}
use ams_push_server.Senders
use ams_push_server.Senders.Configured.{new-IsConfigured}
use ams_push_server.Push.{Worker, stop}
use ams_push_server.Push.Made.{new-shape}
use ams_push_server.Push.Loop.{Loop, tick, cancel, finish, next_round, stopped_timer, timer_of}
use ams_push_server.Push.Stages.{Stage, Staged, delivered, at_select, staged}
use ams_push_server.Push.Stages.Route.{
  Route, IsDelivered, Progress, IsServing, IsServing-grows, IsServing-reset, rerouted,
}
use ams_push_server.Push.Stages.Advance.{
  Advances, fetch-Advances, hand_over-Advances, confirm-Advances,
}
use ams_push_server.Grpc.{make_worker}
use ams_push_server.Grpc.Fleet.{
  Fleet, put, changed, Step, starts, ticks, stops, fetches, hands_over, confirms, resumes, finishes,
  others, Reach, here, next, no_workers,
}

module _ (env : Environment) where
  -- Every worker has behind it what its stage needs.
  AllServing : Fleet → Type 0
  AllServing f = (i : ℕ) (l : Staged History) → f.workers i ≡ some l → IsServing env l f.world

  put-AllServing :
      (i : ℕ) (f : Fleet) (x : Staged History × History)
      → AllServing f
      → Advances env f.world x
      → AllServing (put i x f)
  unfolding AllServing
  put-AllServing i f x all (serving, e) j l at = elim (Bool-cases (eqb i j)) [
    | inl one ↦ subst (λ k. IsServing env k x.1) (some_inj (rw one at at)) serving
    | inr other ↦ IsServing-grows env e (all j l (rw other at at))
  ]

  -- A worker that the service makes is on its route.
  make_worker-Route :
      (client : Client) (sub : Proto.Subscription) (cfg : Proto.PushConfig) {w : Worker History}
      → sub.push_config ≡ some cfg
      → make_worker env client sub cfg ≡ returns (ok w)
      → Route env w
  unfolding make_worker
  make_worker-Route client sub cfg configured e =
      let ahc : AmsHttpConsumer = record { full_sub = sub.full_name; ams_client = client } in
      let (p, shape) = new-shape sub (ams_http_consumer env ahc) (Senders.new env cfg) e in
      subst (Route env) shape (record {
        ahc = ahc;
        cfg = cfg;
        consumer_is = refl;
        named = refl;
        config_is = configured;
        delivering = λ s q. new-IsConfigured env cfg q;
      })

  -- Ticking and stopping change a worker's timer and context only.
  changed-IsServing :
      (l : Staged History) (h : History)
      → IsServing env l h
      → IsServing env (changed tick l) h × IsServing env (changed cancel l) h
  unfolding tick cancel stop
  changed-IsServing l h s = (IsServing-reset env _ _ _ s, IsServing-reset env _ _ _ s)

  resumed-Advances :
      {w : Worker History} (h : History) → Route env w → Advances env h (staged (next_round w), h)
  unfolding next_round
  resumed-Advances h r = (record { route = rerouted env _ _ _ r; progress = tt }, same)

  finished-Advances :
      {w : Worker History} {e : Loop History} (h : History)
      → finish (at_select w) ≡ some e
      → Route env w
      → Advances env h (staged e, h)
  unfolding finish
  finished-Advances {w} h q r = elim (Option-cases (stopped_timer (timer_of (at_select w)))) [
    | inl n ↦ absurd (none_ne (rw n at q))
    | inr (t, s) ↦
        subst (λ k. Advances env h (staged k, h)) (some_inj (rw s at q))
          (record { route = rerouted env _ _ _ r; progress = tt }, same)
  ]

  at_stage :
      {l : Staged History} {st : Stage} {h : History}
      → l.stage ≡ st
      → (s : IsServing env l h) → Progress env l.worker s.route st h
  at_stage {l} {h = h} e s = subst (λ st. Progress env l.worker s.route st h) e s.progress

  Step-AllServing : {f g : Fleet} → Step env f g → AllServing f → AllServing g
  unfolding AllServing
  Step-AllServing {f} (starts i client sub cfg w free configured made) all =
      put-AllServing i f _ all
        (record { route = make_worker-Route client sub cfg configured made; progress = tt }, same)
  Step-AllServing {f} (ticks i l at) all =
      put-AllServing i f _ all ((changed-IsServing l f.world (all i l at)).0, same)
  Step-AllServing {f} (stops i l at) all =
      put-AllServing i f _ all ((changed-IsServing l f.world (all i l at)).1, same)
  Step-AllServing {f} (fetches i l now x at st pending e) all =
      put-AllServing i f x all
        (fetch-Advances env now (rerouted env _ _ _ (all i l at).route) f.world e)
  Step-AllServing {f} (hands_over i l rml now x at st e) all =
      let s = all i l at in
      put-AllServing i f x all (hand_over-Advances env now s.route rml f.world (at_stage st s) e)
  Step-AllServing {f} (confirms i l rm now at st) all =
      put-AllServing i f _ all (confirm-Advances env now (all i l at).route rm f.world)
  Step-AllServing {f} (resumes i l ce at st) all =
      put-AllServing i f _ all (resumed-Advances f.world (all i l at).route)
  Step-AllServing {f} (finishes i l e at st c q) all =
      put-AllServing i f _ all (finished-Advances f.world q (all i l at).route)
  Step-AllServing {f} (others r) all = λ i l at. IsServing-grows env (sent r same) (all i l at)

  Reach-AllServing : {f g : Fleet} → Reach env f g → AllServing f → AllServing g
  Reach-AllServing here all = all
  Reach-AllServing (next r st) all = Step-AllServing st (Reach-AllServing r all)

-- From no workers on, however the workers that the service makes are started and stopped, their
-- cycles interleave stage by stage, and others send requests over the same network: a worker that is
-- about to acknowledge a message has pulled a list from its subscription whose last message this is,
-- and has later posted the body for that list, which for mattermost has its first message only, to
-- the destination of its configuration. The answer had the status 200, 201, 204 or 102 from an http
-- endpoint, and 200 from mattermost.
pub acks_are_earned :
    (env : Environment) (h : History) (f : Fleet) (i : ℕ) (l : Staged History)
    (rm : ReceivedMessage)
    → Reach env (no_workers h) f
    → f.workers i ≡ some l
    → l.stage ≡ delivered rm
    → (r : Route env l.worker) × IsDelivered env l.worker r rm f.world
unfolding AllServing
acks_are_earned env h f i l rm reach at st =
    let s = Reach-AllServing env reach (λ j k e. absurd (none_ne e)) i l at in
    (s.route, at_stage env st s)
