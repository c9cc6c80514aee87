-- ===== src/Push/Loop/Wiring.antt =====
-- push/worker.go: a loop keeps the consumer, the sender and the subscription that its worker was made
-- with.
use ams_push_server.Base.{
  String, ◌≡◌, Bool, inl, inr, refl, sym, ap, ◌∙◌, some, Result, arith, returns, go_bind-returns,
  returns_inj, Option-cases,
}
use ams_push_server.RetryPolicies.{RetryPolicy}
use ams_push_server.Push.{Worker, Pushed}
use ams_push_server.Push.Keeps.{push-keeps}
use ams_push_server.Push.Loop.{
  Loop, tick, cancel, resume, work, finish, after_push, next_round, OwnStep, ticks, works, finishes,
}

pub record SameWiring {W : Type 0} (w w' : Worker W) : Type 0 where
  pub sub_kept : w'.sub ≡ w.sub
  pub consumer_kept : w'.consumer ≡ w.consumer
  pub sender_kept : w'.sender ≡ w.sender

module _ {W : Type 0} where
  same_wiring :
      (w : Worker W) {b : Bool} {p : RetryPolicy} {error : String}
      → SameWiring w (record w { cancelled = b; retry_policy = p; push_err = error })
  same_wiring w = record { sub_kept = refl; consumer_kept = refl; sender_kept = refl }

  after_push-SameWiring : (p : Pushed W) → SameWiring p.worker (after_push p).0.worker
  unfolding after_push next_round
  after_push-SameWiring p = elim (Option-cases p.signal) [
    | inl e ↦ rw e (same_wiring p.worker)
    | inr (ce, e) ↦ rw e (same_wiring p.worker)
  ]

  work-SameWiring :
      (base64_decode : String → Result String String) (now : String) (l : Loop W) (world : W)
      {r : Loop W × W}
      → work base64_decode now l world ≡ returns r
      → SameWiring l.worker r.0.worker
  unfolding work
  work-SameWiring base64_decode now l world {r} e =
      let (p, pushed, f) = go_bind-returns _ (λ p. returns (after_push p)) e in
      let k = push-keeps base64_decode now _ world p pushed in
      let a : (after_push p ≡ r) = returns_inj f in
      let c = after_push-SameWiring p in
      record {
        sub_kept = sym (ap (λ x. x.0.worker.sub) a) ∙ c.sub_kept ∙ k.sub_kept;
        consumer_kept = sym (ap (λ x. x.0.worker.consumer) a) ∙ c.consumer_kept ∙ k.consumer_kept;
        sender_kept = sym (ap (λ x. x.0.worker.sender) a) ∙ c.sender_kept ∙ k.sender_kept;
      }

  finish-SameWiring :
      (l : Loop W) {l' : Loop W} → finish l ≡ some l' → SameWiring l.worker l'.worker
  unfolding finish
  finish-SameWiring l e = record {
    sub_kept = ground arith;
    consumer_kept = ground arith;
    sender_kept = ground arith;
  }

  pub cancel-SameWiring : (l : Loop W) → SameWiring l.worker (cancel l).worker
  unfolding cancel
  cancel-SameWiring l = same_wiring l.worker

  pub resume-SameWiring : (l : Loop W) → SameWiring l.worker (resume l).worker
  unfolding resume next_round
  resume-SameWiring l = same_wiring l.worker

  pub OwnStep-SameWiring :
      {base64_decode : String → Result String String} {l : Loop W} {world : W} {l' : Loop W}
      {world' : W}
      → OwnStep base64_decode l world l' world'
      → SameWiring l.worker l'.worker
  OwnStep-SameWiring {l} ticks = unfold tick in same_wiring l.worker
  OwnStep-SameWiring {l} {world} (works now ph q e) = work-SameWiring _ now l world e
  OwnStep-SameWiring {l} (finishes ph c e) = finish-SameWiring l e
