-- ===== src/Grpc/Stopping.antt =====
-- api/v1/grpc/server.go: stopping a subscription and asking for its status, on a coherent service.
use ams_push_server.Base.{
  deref, deref-returns, returns_inj, go_bind-returns, returns, sym, ap, ◌∙◌, some, ◌≡◌, String, ℕ,
  ◌≢◌, refl, true, false, Option, none, Result, ok, err, arith, go_bind, not, eqb_iff,
  if◌then◌else◌, delete_self, delete_ne,
}
use ams_push_server.Environment.{History}
use ams_push_server.Push
use ams_push_server.Push.Loop.{Loop, cancel}
use ams_push_server.Grpc.{
  PushService, GrpcError, not_found, is_sub_active, worker_of, remove_worker, stop_subscription,
  subscription_status, not_active,
}
use ams_push_server.Grpc.System.Coherence.{IsCoherent}

-- What stopping a subscription leaves of the service: the name is free and its worker's context is
-- cancelled; every other name, every other worker and everything else is as it was.
pub record IsStopped (ps : PushService) (name : String) (i : ℕ) (l : Loop History)
    (ps' : PushService) : Type 0 where
  pub freed : ps'.push_workers name ≡ none
  pub other_names : (n : String) → name ≢ n → ps'.push_workers n ≡ ps.push_workers n
  pub cancelled : ps'.loops i ≡ some (cancel l)
  pub other_loops : (j : ℕ) → i ≢ j → ps'.loops j ≡ ps.loops j
  pub config_kept : ps'.cfg ≡ ps.cfg
  pub client_kept : ps'.ams_client ≡ ps.ams_client
  pub status_kept : ps'.status ≡ ps.status
  pub started_kept : ps'.started ≡ ps.started

remove_worker-IsStopped :
    (ps : PushService) (name : String) (i : ℕ) (l : Loop History)
    → IsStopped ps name i l (remove_worker ps name (i, l))
unfolding remove_worker
remove_worker-IsStopped ps name i l = record {
  freed = delete_self name ps.push_workers;
  other_names = λ n ne. delete_ne name n ps.push_workers ne;
  cancelled = ground (arith, eqb_iff i i);
  other_loops = λ j ne. ground (arith, eqb_iff i j);
  config_kept = refl;
  client_kept = refl;
  status_kept = refl;
  started_kept = refl;
}

module _ (ps : PushService) (name : String) where
  active-none : ps.push_workers name ≡ none → is_sub_active ps name ≡ false
  unfolding is_sub_active
  active-none e = rw (e, is_sub_active)

  pub active-some : {i : ℕ} → ps.push_workers name ≡ some i → is_sub_active ps name ≡ true
  unfolding is_sub_active
  active-some e = rw (e, is_sub_active)

  pub worker_of-found :
      {i : ℕ} {l : Loop History}
      → ps.push_workers name ≡ some i
      → ps.loops i ≡ some l
      → worker_of ps name ≡ returns (i, l)
  unfolding worker_of
  worker_of-found {i} e at =
      ap (λ o. go_bind (deref o) λ i. go_bind (deref (ps.loops i)) λ l. returns (i, l)) e
      ∙ ap (λ o. go_bind (deref o) λ l. returns (i, l)) at

  stop-unknown :
      ps.push_workers name ≡ none → stop_subscription ps name ≡ returns (some (not_active name), ps)
  unfolding stop_subscription
  stop-unknown e =
      ap
        (λ b.
          if not b
          then returns (some (not_active name), ps)
          else go_bind (worker_of ps name) λ found. returns (none, remove_worker ps name found))
        (active-none e)

  pub stop-known :
      {i : ℕ} {l : Loop History}
      → ps.push_workers name ≡ some i
      → ps.loops i ≡ some l
      → stop_subscription ps name ≡ returns (none, remove_worker ps name (i, l))
  unfolding stop_subscription
  stop-known e at =
      ap
        (λ b.
          if not b
          then returns (some (not_active name), ps)
          else go_bind (worker_of ps name) λ found. returns (none, remove_worker ps name found))
        (active-some e)
      ∙ ap (λ g. go_bind g λ found. returns (none, remove_worker ps name found))
          (worker_of-found e at)

  pub status-known :
      {i : ℕ} {l : Loop History}
      → ps.push_workers name ≡ some i
      → ps.loops i ≡ some l
      → subscription_status ps (record { full_name = name }) ≡ returns (ok (Push.status l.worker))
  unfolding subscription_status
  status-known e at =
      ap
        (λ b.
          if not b
          then returns (err (record { code = not_found; message = not_active name }))
          else go_bind (worker_of ps name) λ (i, l). returns (ok (Push.status l.worker)))
        (active-some e)
      ∙ ap (λ g. go_bind g λ (i, l). returns (ok (Push.status l.worker))) (worker_of-found e at)

-- The answers to a request for a subscription's status: the text of its running worker, or not
-- found.
pub data StatusOf (ps : PushService) (name : String) : Result GrpcError String → Type 0 where
  unknown :
      (e : GrpcError) → ps.push_workers name ≡ none → e.code ≡ not_found → StatusOf ps name (err e)
  known :
      (i : ℕ) (l : Loop History)
      → ps.push_workers name ≡ some i
      → ps.loops i ≡ some l
      → l.worker.cancelled ≡ false
      → l.worker.sub.full_name ≡ name
      → StatusOf ps name (ok (Push.status l.worker))

-- The answers of `deactivateSubscription`, and the service after each.
pub data IsDeactivation (ps : PushService) (name : String)
    : Option String × PushService → Type 0 where
  was_inactive : (t : String) → ps.push_workers name ≡ none → IsDeactivation ps name (some t, ps)
  stopped :
      (i : ℕ) (l : Loop History) (ps' : PushService)
      → ps.push_workers name ≡ some i
      → ps.loops i ≡ some l
      → IsStopped ps name i l ps'
      → ps' ≡ remove_worker ps name (i, l)
      → IsDeactivation ps name (none, ps')

module _ (ps : PushService) (c : IsCoherent ps) (name : String) where
  stop_cases :
      (o : Option ℕ)
      → ps.push_workers name ≡ o
      → (x : Option String × PushService) × (stop_subscription ps name ≡ returns x)
        × IsDeactivation ps name x
  stop_cases none e = (_, stop-unknown ps name e, was_inactive _ e)
  stop_cases (some i) e =
      let (l, at, _, _) = c.mapped name i e in
      (_, stop-known ps name e at, stopped i l _ e at (remove_worker-IsStopped ps name i l) refl)

  -- On a coherent service stopping a subscription never panics. It refuses a name that is not in the
  -- map and changes nothing, or it frees the name and cancels its worker's context, as `IsStopped`
  -- says.
  pub stop_subscription-IsDeactivation :
      (x : Option String × PushService) × (stop_subscription ps name ≡ returns x)
      × IsDeactivation ps name x
  stop_subscription-IsDeactivation = stop_cases (ps.push_workers name) refl

  reported :
      (o : Option ℕ)
      → ps.push_workers name ≡ o
      → (x : Result GrpcError String) × (subscription_status ps (record { full_name = name })
          ≡ returns x)
        × StatusOf ps name x
  unfolding subscription_status
  reported none e = (
    _,
    ap
        (λ b.
          if not b
          then returns (err (record { code = not_found; message = not_active name }))
          else go_bind (worker_of ps name) λ (i, l). returns (ok (Push.status l.worker)))
        (active-none ps name e),
    unknown _ e refl,
  )
  reported (some i) e =
      let (l, at, running, named) = c.mapped name i e in
      (_, status-known ps name e at, known i l e at running named)

  -- On a coherent service a request for a status never panics: it answers with the status of the
  -- running worker of that name, or not found if there is none.
  pub subscription_status-StatusOf :
      (x : Result GrpcError String) × (subscription_status ps (record { full_name = name })
        ≡ returns x)
      × StatusOf ps name x
  subscription_status-StatusOf = reported (ps.push_workers name) refl

-- A worker that is found is one that the map has.
pub worker_of-returns :
    (ps : PushService) (name : String) {k : ℕ} {l : Loop History}
    → worker_of ps name ≡ returns (k, l)
    → (ps.push_workers name ≡ some k) × (ps.loops k ≡ some l)
unfolding worker_of
worker_of-returns ps name e =
    let (k', held, f) = go_bind-returns (deref (ps.push_workers name)) _ e in
    let (l', at, g) = go_bind-returns (deref (ps.loops k')) _ f in
    let same = returns_inj g in
    (
      deref-returns (ps.push_workers name) held ∙ ap (λ x. some x.0) same,
      ap ps.loops (sym (ap (λ x. x.0) same))
          ∙ deref-returns (ps.loops k') at
          ∙ ap (λ x. some x.1) same,
    )
