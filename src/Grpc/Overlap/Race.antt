-- ===== src/Grpc/Overlap/Race.antt =====
-- api/v1/grpc/server.go: two handlers for one subscription that run at once.
use ams_push_server.Base.{
  ℕ, suc, String, ◌≡◌, ◌≢◌, refl, false, some, ok, returns, eq_refl, eqb_iff, eqb_refl, arith,
}
use ams_push_server.Environment.{Environment, History}
use ams_push_server.Proto
use ams_push_server.Push.{Worker}
use ams_push_server.Push.Loop.{Loop, start}
use ams_push_server.Grpc.{PushService, add_worker}
use ams_push_server.Grpc.Overlap.{
  idle, System, commit, admit, Step, admits, commits, Reach, here, next,
}
use ams_push_server.Grpc.Overlap.Admitted.{admit-IsAdmitted}

-- Any handler may begin at any time, as in the code.
abbrev pub Anything : System → String → Type 0
Anything s name = Unit

-- A service, and goroutines that are all between two calls.
abbrev pub at_rest : PushService → History → System
at_rest ps h = record { service = ps; world = h; threads = λ i. idle }

-- Two workers of one subscription run, and the map has only one of them.
abbrev pub IsDoubled : PushService → String → Type 0
IsDoubled ps name =
    (i j : ℕ) × (l k : Loop History) × (i ≢ j)
    × (ps.loops i ≡ some l)
    × (ps.loops j ≡ some k)
    × (l.worker.cancelled ≡ false)
    × (k.worker.cancelled ≡ false)
    × (l.worker.sub.full_name ≡ name)
    × (k.worker.sub.full_name ≡ name)
    × (ps.push_workers name ≡ some j)

doubled :
    (ps : PushService) (name : String) (w v : Worker History)
    → (w.sub.full_name ≡ name) × (w.cancelled ≡ false)
    → (v.sub.full_name ≡ name) × (v.cancelled ≡ false)
    → IsDoubled (add_worker (add_worker ps name w) name v) name
unfolding add_worker
doubled ps name w v a b = (
  ps.started,
  suc ps.started,
  start w,
  start v,
  (λ e. omega arith),
  ground (arith, eqb_iff (suc ps.started) ps.started, eqb_refl ps.started),
  ground (arith, eqb_refl (suc ps.started)),
  a.1,
  b.1,
  a.0,
  b.0,
  rw (eq_refl name) refl,
)

-- Two requests to activate the same subscription, each of which the service would accept, may be
-- handled so that both are accepted: then two workers of the subscription run, and the map has only
-- the second of them.
pub overlapping_activations :
    (env : Environment) (ps : PushService) (h : History) (r q : Proto.ActivateSubscriptionRequest)
    (name : String) (w v : Worker History)
    → admit env ps r ≡ returns (ok (name, w))
    → admit env ps q ≡ returns (ok (name, v))
    → (t : System) × Reach Anything env (at_rest ps h) t × IsDoubled t.service name
overlapping_activations env ps h r q name w v first second =
    let (_, a, c) = admit-IsAdmitted env ps r first in
    let (_, b, d) = admit-IsAdmitted env ps q second in
    let s1 : Step Anything env (at_rest ps h) _ = admits 0 name r refl tt first in
    let s2 : Step Anything env _ _ = admits 1 name q refl tt second in
    let s3 : Step Anything env _ _ = commits 0 name w refl in
    let s4 : Step Anything env _ _ = commits 1 name v refl in
    (
      _,
      next (next (next (next here s1) s2) s3) s4,
      unfold commit in doubled ps name w v (a, c) (b, d),
    )
