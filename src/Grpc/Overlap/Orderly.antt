-- ===== src/Grpc/Overlap/Orderly.antt =====
-- api/v1/grpc/server.go: handlers that run at once, no two of them for one subscription.
use mathlib.Core.Path.{subst}
use ams_push_server.Base.{
  ℕ, String, ◌≡◌, ◌≢◌, refl, sym, ap, ◌∙◌, true, none, some, returns, arith, inl, inr, Option-cases,
  none_ne,
}
use ams_push_server.Environment.{Environment, History}
use ams_push_server.Push.{Worker}
use ams_push_server.Push.Loop.{Loop, resume, next_round}
use ams_push_server.Push.Loop.Sound.{OwnStep-keeps}
use ams_push_server.Grpc.{PushService, is_sub_active, worker_of, remove_worker, add_worker}
use ams_push_server.Grpc.Stopping.{worker_of-returns}
use ams_push_server.Grpc.System.Coherence.{
  IsCoherent, add_worker-IsCoherent, remove_worker-IsCoherent, replace_loop-IsCoherent,
}
use ams_push_server.Grpc.Overlap.{
  Thread, idle, adding, removing, concerns, System, set_thread, commit, Step, admits, commits,
  checks, removes, asks, replies, receives, begins, drops, runs, reading, taken, after, Reach, here,
  next, Panics,
}
use ams_push_server.Grpc.Overlap.Threads.{
  IsExclusive, Fits, Fits-assign, Fits-delete, Fits-set_thread, apart-set_thread,
}
use ams_push_server.Grpc.Overlap.Admitted.{admit-IsAdmitted}

pub record IsOrderly (s : System) : Type 0 where
  pub coherent : IsCoherent s.service
  pub fits : (i : ℕ) → Fits s.service.push_workers (s.threads i)
  pub apart :
      (i j : ℕ) (name : String)
      → concerns (s.threads i) ≡ some name
      → concerns (s.threads j) ≡ some name
      → i ≡ j

module _ {s : System} (o : IsOrderly s) where
  other_thread :
      (i j : ℕ) {name : String}
      → concerns (s.threads i) ≡ some name
      → i ≢ j
      → concerns (s.threads j) ≢ some name
  other_thread i j {name} e ne f = ne (o.apart i j name e f)

  adding_now :
      (i : ℕ) {name : String} {w : Worker History}
      → s.threads i ≡ adding name w
      → Fits s.service.push_workers (adding name w)
  adding_now i e = subst (Fits s.service.push_workers) e (o.fits i)

  begun :
      (i : ℕ) (name : String) (t : Thread)
      → IsExclusive s name
      → concerns t ≡ some name
      → Fits s.service.push_workers t
      → IsOrderly (record s { threads = set_thread i t s.threads })
  begun i name t alone c f = record {
    coherent = o.coherent;
    fits = Fits-set_thread s.service.push_workers s.threads i t f λ j ne. o.fits j;
    apart = apart-set_thread s.threads i t o.apart λ j n p q. alone j (q ∙ sym p ∙ c);
  }

  -- A goroutine that is now at no subscription, while the service keeps its map.
  rested :
      (i : ℕ) (t : Thread) (ps : PushService)
      → ps.push_workers ≡ s.service.push_workers
      → IsCoherent ps
      → concerns t ≡ none
      → Fits ps.push_workers t
      → IsOrderly (after s i t ps)
  rested i t ps same c none_now f = record {
    coherent = c;
    fits =
        Fits-set_thread ps.push_workers s.threads i t f
          λ j ne. subst (λ m. Fits m (s.threads j)) (sym same) (o.fits j);
    apart = apart-set_thread s.threads i t o.apart λ j n p q. none_ne (sym none_now ∙ p);
  }

  committed :
      (i : ℕ) (name : String) (w : Worker History)
      → s.threads i ≡ adding name w
      → IsOrderly (record s {
        service = add_worker s.service name w;
        threads = set_thread i idle s.threads;
      })
  unfolding add_worker
  committed i name w e =
      let (free, named, live) = adding_now i e in
      record {
        coherent =
            unfold add_worker in add_worker-IsCoherent s.service name w o.coherent free named live;
        fits = Fits-set_thread _ s.threads i idle tt λ j ne.
            Fits-assign s.service.push_workers name _ (s.threads j)
              (other_thread i j (ap concerns e) ne) (o.fits j);
        apart = apart-set_thread s.threads i idle o.apart λ j n p q. cc;
      }

  removed :
      (i : ℕ) (name : String) {k : ℕ} {l : Loop History}
      → s.threads i ≡ removing name
      → worker_of s.service name ≡ returns (k, l)
      → IsOrderly (record s {
        service = remove_worker s.service name (k, l);
        threads = set_thread i idle s.threads;
      })
  unfolding remove_worker
  removed i name {k} {l} e found =
      let (held, at) = worker_of-returns s.service name found in
      record {
        coherent = remove_worker-IsCoherent s.service name k l o.coherent held at;
        fits = Fits-set_thread _ s.threads i idle tt λ j ne.
            Fits-delete s.service.push_workers name (s.threads j)
              (other_thread i j (ap concerns e) ne) (o.fits j);
        apart = apart-set_thread s.threads i idle o.apart λ j n p q. cc;
      }

held_by :
    (ps : PushService) (name : String)
    → is_sub_active ps name ≡ true
    → (k : ℕ) × (ps.push_workers name ≡ some k)
unfolding is_sub_active
held_by ps name e = elim (Option-cases (ps.push_workers name)) [
  | inl free ↦ absurd (ground arith)
  | inr held ↦ held
]

-- A step of an orderly system leaves it orderly, if a handler begins only on a subscription that no
-- other one is about to change or to read.
pub Step-IsOrderly :
    {env : Environment} {s t : System} → Step IsExclusive env s t → IsOrderly s → IsOrderly t
Step-IsOrderly {env} {s} (admits {w = w} i name r was alone e) o =
    begun o i name (adding name w) alone refl (admit-IsAdmitted env s.service r e)
Step-IsOrderly {env} (commits i name w was) o = unfold commit in committed o i name w was
Step-IsOrderly {env} {s} (checks i name was alone e) o =
    begun o i name (removing name) alone refl (held_by s.service name e)
Step-IsOrderly {env} (removes {found = found} i name was e) o = removed o i name was e
Step-IsOrderly {env} {s} (asks i name was alone e) o =
    begun o i name (reading name) alone refl (held_by s.service name e)
Step-IsOrderly {env} {s} (replies i name was e) o =
    rested o i idle s.service refl o.coherent refl tt
Step-IsOrderly {env} {s} (receives i k l ce was at waits) o =
    rested o i (taken ce.resource) _ refl
      (replace_loop-IsCoherent s.service k l (resume l) o.coherent at
        (unfold resume next_round in refl) (unfold resume next_round in refl))
      refl tt
Step-IsOrderly {env} {s} (begins i name was alone e) o =
    begun o i name (removing name) alone refl (held_by s.service name e)
Step-IsOrderly {env} {s} (drops i name was e) o = rested o i idle s.service refl o.coherent refl tt
Step-IsOrderly {env} {s} (runs k l {l' = l'} at own) o =
    let (same_sub, same_context) = OwnStep-keeps env.base64_decode own in
    record {
      coherent = replace_loop-IsCoherent s.service k l l' o.coherent at same_sub same_context;
      fits = o.fits;
      apart = o.apart;
    }

Reach-IsOrderly :
    {env : Environment} {s t : System} → Reach IsExclusive env s t → IsOrderly s → IsOrderly t
Reach-IsOrderly here o = o
Reach-IsOrderly (next r st) o = Step-IsOrderly st (Reach-IsOrderly r o)

no-Panics : (s : System) (i : ℕ) → IsOrderly s → ¬ Panics s i
unfolding worker_of
no-Panics s i o (name, was, e) =
    let (k, held) : (k : ℕ) × (s.service.push_workers name ≡ some k) = elim was [
      | inl at_removal ↦ subst (Fits s.service.push_workers) at_removal (o.fits i)
      | inr at_read ↦ subst (Fits s.service.push_workers) at_read (o.fits i)
    ] in
    let (l, at, _, _) = o.coherent.mapped name k held in absurd (ground arith)

-- From an orderly system on, as long as a handler, or `handleDeactivateChannel`, begins only on a
-- subscription that no other one is about to change or to read, the map and the running workers agree,
-- and none that activates or deactivates a subscription, or asks for its status, is about to read a
-- worker that is missing, however these and the workers interleave.
pub exclusive_handlers_are_safe :
    (env : Environment) (s t : System)
    → IsOrderly s
    → Reach IsExclusive env s t
    → IsCoherent t.service × ((i : ℕ) → ¬ Panics t i)
exclusive_handlers_are_safe env s t o r =
    let o' = Reach-IsOrderly r o in (o'.coherent, λ i. no-Panics t i o')
