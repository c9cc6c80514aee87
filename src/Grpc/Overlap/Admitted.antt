-- ===== src/Grpc/Overlap/Admitted.antt =====
-- api/v1/grpc/server.go: the two steps of `ActivateSubscription` together, and what the first leaves.
use mathlib.Core.Path.{subst}
use ams_push_server.Base.{
  true_ne, err_ne, ok_inj, String, ◌++◌, ◌≡◌, refl, ap, ◌∙◌, false, Option, none, some, Result, ok,
  err, Go, returns, panics, go_bind, go_bind-returns, Bool-cases, inl, inr, returns_inj,
  Option-cases,
}
use ams_push_server.Environment.{Environment, History}
use ams_push_server.Proto
use ams_push_server.Consumers
use ams_push_server.Senders
use ams_push_server.Push.{Worker}
use ams_push_server.Push.Made.{new-runs}
use ams_push_server.Grpc.{
  PushService, GrpcError, invalid_argument, is_sub_active, endpoint_error, make_worker, installed,
  empty_subscription, activate_complete, activate_subscription,
}
use ams_push_server.Grpc.Overlap.{Admitted, refused_for, admit_complete, admit_empty, admit, commit}

finished : PushService → Go (Result GrpcError Admitted) → Go (Result GrpcError String × PushService)
finished ps g = go_bind g λ a. returns (commit ps a)

installed-finished :
    (ps : PushService) (name : String) (m : Go (Result String (Worker History)))
    → go_bind m (λ w. returns (installed ps name w))
      ≡ finished ps (go_bind m λ w. returns (refused_for name w))
unfolding finished installed refused_for commit
installed-finished ps name (returns (ok w)) = refl
installed-finished ps name (returns (err e)) = refl
installed-finished ps name panics = refl

module _ (env : Environment) (ps : PushService) where
  activate_complete-finished :
      (sub : Proto.Subscription) (cfg : Proto.PushConfig)
      → activate_complete env ps sub cfg ≡ finished ps (admit_complete env ps sub cfg)
  unfolding activate_complete admit_complete finished commit
  activate_complete-finished sub cfg = elim (Bool-cases (is_sub_active ps sub.full_name)) [
    | inl t ↦ rw t refl
    | inr f ↦ elim (Option-cases (endpoint_error env cfg)) [
      | inl o ↦
          rw (f, o)
            (unfold finished in
              installed-finished ps sub.full_name (make_worker env ps.ams_client sub cfg))
      | inr (e, o) ↦ rw (f, o) refl
    ]
  ]

  -- `ActivateSubscription` is its two steps, one after the other with no step between them.
  pub activate_subscription-splits :
      (r : Proto.ActivateSubscriptionRequest)
      → activate_subscription env ps r ≡ go_bind (admit env ps r) λ a. returns (commit ps a)
  unfolding activate_subscription admit empty_subscription admit_empty commit
  activate_subscription-splits r = elim (Option-cases r.subscription) [
    | inl n ↦ rw n refl
    | inr (sub, s) ↦ elim (Option-cases sub.push_config) [
      | inl n ↦ rw (s, n) refl
      | inr (cfg, c) ↦ elim (Option-cases cfg.retry_policy) [
        | inl n ↦ rw (s, c, n) refl
        | inr (rp, p) ↦ rw (s, c, p) (unfold finished in activate_complete-finished sub cfg)
      ]
    ]
  ]

  -- What the first step leaves for the second: the name is free, and the worker, made for a
  -- subscription of that name, is not stopped.
  abbrev pub IsAdmitted : Admitted → Type 0
  IsAdmitted (name, w) =
      (ps.push_workers name ≡ none) × (w.sub.full_name ≡ name) × (w.cancelled ≡ false)

  inactive : (name : String) → is_sub_active ps name ≡ false → ps.push_workers name ≡ none
  unfolding is_sub_active
  inactive name e = elim (Option-cases (ps.push_workers name)) [
    | inl free ↦ free
    | inr (i, held) ↦ absurd (true_ne (rw (held, is_sub_active) refl) e)
  ]

  refused_for-IsAdmitted :
      (sub : Proto.Subscription) (m : Result String (Worker History)) {a : Admitted}
      → ps.push_workers sub.full_name ≡ none
      → ((w : Worker History) → m ≡ ok w → (w.sub ≡ sub) × (w.cancelled ≡ false))
      → refused_for sub.full_name m ≡ ok a
      → IsAdmitted a
  unfolding refused_for
  refused_for-IsAdmitted sub (err t) free made e = absurd (err_ne e)
  refused_for-IsAdmitted sub (ok w) {a} free made e =
      let (s, c) = made w refl in subst IsAdmitted (ok_inj e) (free, ap (λ x. x.full_name) s, c)

  make_worker-runs :
      (sub : Proto.Subscription) (cfg : Proto.PushConfig) {w : Worker History}
      → make_worker env ps.ams_client sub cfg ≡ returns (ok w)
      → (w.sub ≡ sub) × (w.cancelled ≡ false)
  unfolding make_worker
  make_worker-runs sub cfg e =
      new-runs sub
        (Consumers.ams_http_consumer env
          (record { full_sub = sub.full_name; ams_client = ps.ams_client }))
        (Senders.new env cfg) e

  tested-IsAdmitted :
      (sub : Proto.Subscription) (cfg : Proto.PushConfig) (o : Option String) {a : Admitted}
      → ps.push_workers sub.full_name ≡ none
      → elim o [
        | some e ↦
            returns
              (err (record { code = invalid_argument; message = "Invalid push endpoint, " ++ e }))
        | none ↦
            go_bind
              (make_worker env ps.ams_client sub cfg)
              λ w. returns (refused_for sub.full_name w)
      ]
        ≡ returns (ok a)
      → IsAdmitted a
  tested-IsAdmitted sub cfg (some t) free e = absurd (err_ne (returns_inj e))
  tested-IsAdmitted sub cfg none free e =
      let (m, made, f) =
        go_bind-returns (make_worker env ps.ams_client sub cfg)
          (λ w. returns (refused_for sub.full_name w)) e in
      refused_for-IsAdmitted sub m free (λ w q. make_worker-runs sub cfg (made ∙ ap returns q))
        (returns_inj f)

  complete-IsAdmitted :
      (sub : Proto.Subscription) (cfg : Proto.PushConfig) {a : Admitted}
      → admit_complete env ps sub cfg ≡ returns (ok a)
      → IsAdmitted a
  unfolding admit_complete
  complete-IsAdmitted sub cfg e = elim (Bool-cases (is_sub_active ps sub.full_name)) [
    | inl t ↦ absurd (err_ne (returns_inj (rw t at e)))
    | inr f ↦
        tested-IsAdmitted sub cfg (endpoint_error env cfg) (inactive sub.full_name f) (rw f at e)
  ]

  empty-IsAdmitted : {a : Admitted} → admit_empty env ≡ returns (ok a) → IsAdmitted a
  unfolding admit_empty
  empty-IsAdmitted e = absurd (err_ne (returns_inj e))

  pub admit-IsAdmitted :
      (r : Proto.ActivateSubscriptionRequest) {a : Admitted}
      → admit env ps r ≡ returns (ok a)
      → IsAdmitted a
  unfolding admit
  admit-IsAdmitted r e = elim (Option-cases r.subscription) [
    | inl n ↦ empty-IsAdmitted (rw n at e)
    | inr (sub, s) ↦ elim (Option-cases sub.push_config) [
      | inl n ↦ empty-IsAdmitted (rw (s, n) at e)
      | inr (cfg, c) ↦ elim (Option-cases cfg.retry_policy) [
        | inl n ↦ empty-IsAdmitted (rw (s, c, n) at e)
        | inr (rp, p) ↦ complete-IsAdmitted sub cfg (rw (s, c, p) at e)
      ]
    ]
  ]
