-- ===== src/Grpc/RoundTrip.antt =====
-- api/v1/grpc/server.go: activating a subscription and deactivating it again.
use mathlib.Core.Path.{fun_ext, subst}
use ams_push_server.Base.{
  ℕ, suc, String, eq_iff, eq_refl, ◌≡◌, ◌≢◌, refl, sym, ap, true, none, some, ok, arith, returns,
  go_bind, Dict, assign, delete, eqb_iff, eqb_refl,
}
use ams_push_server.Environment.{Environment, History}
use ams_push_server.Push.{Worker}
use ams_push_server.Proto
use ams_push_server.Push.Loop.{Loop, start, cancel}
use ams_push_server.Grpc.{
  PushService, add_worker, remove_worker, activate_subscription, deactivate_subscription,
  deactivated,
}
use ams_push_server.Grpc.Activation.{IsComplete}
use ams_push_server.Grpc.Accepted.{activate_subscription-IsAdded}
use ams_push_server.Grpc.Stopping.{stop-known}

delete-assign :
    {V : Type 0} (k : String) (v : V) (m : Dict V) → m k ≡ none → delete k (assign k v m) ≡ m
delete-assign k v m free = fun_ext λ j. ground (arith, eq_iff k j)

-- The service is as before, but for the worker that was started and stopped between: it has the number
-- `ps.started`, and its context is cancelled.
pub record IsRestored (ps ps' : PushService) : Type 0 where
  pub map_restored : ps'.push_workers ≡ ps.push_workers
  pub config_kept : ps'.cfg ≡ ps.cfg
  pub status_kept : ps'.status ≡ ps.status
  pub counted : ps'.started ≡ suc ps.started
  pub client_kept : ps'.ams_client ≡ ps.ams_client
  pub others_kept : (i : ℕ) → ps.started ≢ i → ps'.loops i ≡ ps.loops i
  pub last : Loop History
  pub last_stopped : ps'.loops ps.started ≡ some last
  pub last_cancelled : last.worker.cancelled ≡ true

restored :
    (ps : PushService) (name : String) (w : Worker History)
    → ps.push_workers name ≡ none
    → IsRestored ps (remove_worker (add_worker ps name w) name (ps.started, start w))
unfolding remove_worker add_worker cancel
restored ps name w free = record {
  map_restored = delete-assign name ps.started ps.push_workers free;
  config_kept = refl;
  status_kept = refl;
  counted = refl;
  client_kept = refl;
  others_kept = λ i ne. ground (arith, eqb_iff ps.started i);
  last = cancel (start w);
  last_stopped = rw (eqb_refl ps.started) refl;
  last_cancelled = refl;
}

deactivated_added :
    (ps : PushService) (name : String) (w : Worker History)
    → ps.push_workers name ≡ none
    → (t : String) × (deactivate_subscription (add_worker ps name w) (record { full_name = name })
        ≡ returns (ok t, remove_worker (add_worker ps name w) name (ps.started, start w)))
unfolding deactivate_subscription deactivated
deactivated_added ps name w free = (
  _,
  ap (λ g. go_bind g λ x. returns (deactivated name x))
      (stop-known (add_worker ps name w) name {i = ps.started} {l = start w}
        (unfold add_worker in rw (eq_refl name) refl)
        (unfold add_worker in rw (eqb_refl ps.started) refl)),
)

module _ (env : Environment) (ps : PushService) (r : Proto.ActivateSubscriptionRequest)
    {sub : Proto.Subscription} {cfg : Proto.PushConfig} {rp : Proto.RetryPolicy}
    (whole : IsComplete r sub cfg rp) where
  -- If a complete request to activate is accepted, then deactivating its subscription is accepted too,
  -- and the map of workers is exactly the one before: the configuration, the status, the client and the
  -- other loops are as they were, one more worker has been started, and its context is cancelled.
  pub deactivate-activate :
      (m : String) (ps1 : PushService)
      → activate_subscription env ps r ≡ returns (ok m, ps1)
      → (t : String) × (ps2 : PushService) × (deactivate_subscription ps1
            (record { full_name = sub.full_name })
          ≡ returns (ok t, ps2))
        × IsRestored ps ps2
  deactivate-activate m ps1 e =
      let a = activate_subscription-IsAdded env ps r whole e in
      subst
        (λ p.
          (t : String) × (ps2 : PushService) × (deactivate_subscription p
              (record { full_name = sub.full_name })
            ≡ returns (ok t, ps2))
          × IsRestored ps ps2)
        (sym a.added)
        (
          (deactivated_added ps sub.full_name a.worker a.was_free).0,
          remove_worker (add_worker ps sub.full_name a.worker) sub.full_name
              (ps.started, start a.worker),
          (deactivated_added ps sub.full_name a.worker a.was_free).1,
          restored ps sub.full_name a.worker a.was_free,
        )
