-- ===== src/Grpc/Load/Loaded.antt =====
-- api/v1/grpc/server.go: what is active after the subscriptions were loaded.
use mathlib.Core.Path.{subst}
use ams_push_server.Base.{
  true_ne, ℕ, ◌<◌, String, ◌≡◌, inl, inr, refl, ap, sym, ◌∙◌, some, Result, ok, err, List, [], ◌∷◌,
  returns, go_bind, Elem, Bool-cases,
}
use ams_push_server.Environment.{Environment, History}
use ams_push_server.Ams
use ams_push_server.Ams.{Client}
use ams_push_server.Ams.Types.{Subscription, Project, UserInfo, is_push_enabled}
use ams_push_server.Grpc.{PushService}
use ams_push_server.Grpc.Handlers.{activate_subscription-IsActivation}
use ams_push_server.Grpc.System.Coherence.{IsCoherent}
use ams_push_server.Grpc.Load.{
  State, to_request, activate_loaded, retrieved, load_one, load_names, load_projects, full_sub_name,
  after_user, load_subscriptions,
}
use ams_push_server.Grpc.Load.Retry.{AnswersAfter, retrieve_user-finds}
use ams_push_server.Grpc.Load.Loadable.{
  IsExtended, IsExtended-refl, IsExtended-trans, IsActivation-IsExtended, IsLoadable, IsActive,
  IsActivation-IsActive, same_answer,
}

module _ (env : Environment) where
  -- The messaging service answers with `sub` whenever it is asked for the name.
  pub record IsServed (client : Client) (full_name : String) (sub : Subscription) : Type 0 where
    pub answer :
        (h : History)
        → (h' : History) × (Ams.get_subscription env client.subscription_service full_name h
            ≡ (ok sub, h'))

  activate_loaded-IsExtended :
      (sub : Subscription) (s : State)
      → (s' : State) × (activate_loaded env sub s ≡ returns s')
        × IsExtended s.0 s'.0
        × (IsLoadable env sub → IsActive s'.0 sub.full_name)
  unfolding activate_loaded
  activate_loaded-IsExtended sub (ps, h) =
      let (x, e, a) = activate_subscription-IsActivation env ps (to_request sub) in
      (
        (x.1, h),
        ap (λ g. go_bind g λ (reply, ps'). returns (ps', h)) e,
        IsActivation-IsExtended a,
        λ l. IsActivation-IsActive sub l a,
      )

  retrieved-IsExtended :
      (ps : PushService) (r : Result String Subscription × History)
      → (s' : State) × (retrieved env ps r ≡ returns s')
        × IsExtended ps s'.0
        × ((sub : Subscription) (h : History)
            → r ≡ (ok sub, h)
            → IsLoadable env sub
            → IsActive s'.0 sub.full_name)
  unfolding retrieved
  retrieved-IsExtended ps (err e, h) = ((ps, h), refl, IsExtended-refl ps, λ sub k q l. cc)
  retrieved-IsExtended ps (ok sub, h) = elim (Bool-cases (is_push_enabled sub)) [
    | inl t ↦
        let (s', e, x, a) = activate_loaded-IsExtended sub (ps, h) in
        (
          s',
          rw t e,
          x,
          λ sub' k q l.
              subst (λ z. IsActive s'.0 z.full_name) (same_answer q)
                (a (subst (IsLoadable env) (sym (same_answer q)) l)),
        )
    | inr f ↦ (
      (ps, h),
      rw f refl,
      IsExtended-refl ps,
      λ sub' k q l. absurd (true_ne (ap is_push_enabled (same_answer q) ∙ l.enabled) f),
    )
  ]

  load_one-IsExtended :
      (project name : String) (s : State)
      → (s' : State) × (load_one env project name s ≡ returns s')
        × IsExtended s.0 s'.0
        × ((sub : Subscription)
            → IsServed s.0.ams_client (full_sub_name project name) sub
            → IsLoadable env sub
            → IsActive s'.0 sub.full_name)
  unfolding load_one
  load_one-IsExtended project name (ps, h) =
      let (s', e, x, a) = retrieved-IsExtended ps _ in
      (s', e, x, λ sub served l. a sub (served.answer h).0 (served.answer h).1 l)

  load_names-IsExtended :
      (project : String) (names : List String) (s : State)
      → (s' : State) × (load_names env project names s ≡ returns s')
        × IsExtended s.0 s'.0
        × ((name : String) (sub : Subscription)
            → Elem name names
            → IsServed s.0.ams_client (full_sub_name project name) sub
            → IsLoadable env sub
            → IsActive s'.0 sub.full_name)
  unfolding load_names
  load_names-IsExtended project [] s = (s, refl, IsExtended-refl s.0, λ name sub m v l. absurd m)
  load_names-IsExtended project (n ∷ ns) s =
      let (s1, e1, x1, a1) = load_one-IsExtended project n s in
      let (s2, e2, x2, a2) = load_names-IsExtended project ns s1 in
      (
        s2,
        ap (λ g. go_bind g (load_names env project ns)) e1 ∙ e2,
        IsExtended-trans x1 x2,
        λ name sub m v l. elim m [
          | inl same ↦
              let (i, k) =
                a1 sub
                  (subst (λ z. IsServed s.0.ams_client (full_sub_name project z) sub) (sym same) v)
                  l in
              (i, x2.still_active _ i k)
          | inr later ↦
              a2 name sub later
                (subst (λ c. IsServed c (full_sub_name project name) sub) (sym x1.client_kept) v) l
        ],
      )

  load_projects-IsExtended :
      (projects : List Project) (s : State)
      → (s' : State) × (load_projects env projects s ≡ returns s')
        × IsExtended s.0 s'.0
        × ((p : Project) (name : String) (sub : Subscription)
            → Elem p projects
            → Elem name p.subscriptions
            → IsServed s.0.ams_client (full_sub_name p.project name) sub
            → IsLoadable env sub
            → IsActive s'.0 sub.full_name)
  unfolding load_projects
  load_projects-IsExtended [] s = (s, refl, IsExtended-refl s.0, λ p name sub m n v l. absurd m)
  load_projects-IsExtended (q ∷ qs) s =
      let (s1, e1, x1, a1) = load_names-IsExtended q.project q.subscriptions s in
      let (s2, e2, x2, a2) = load_projects-IsExtended qs s1 in
      (
        s2,
        ap (λ g. go_bind g (load_projects env qs)) e1 ∙ e2,
        IsExtended-trans x1 x2,
        λ p name sub m n v l. elim m [
          | inl same ↦
              let (i, k) =
                a1 name sub (subst (λ z. Elem name z.subscriptions) (sym same) n)
                  (subst (λ z. IsServed s.0.ams_client (full_sub_name z.project name) sub)
                    (sym same) v)
                  l in
              (i, x2.still_active _ i k)
          | inr later ↦
              a2 p name sub later n
                (subst (λ c. IsServed c (full_sub_name p.project name) sub) (sym x1.client_kept) v)
                l
        ],
      )

  -- If the user of the push worker is found after k failed attempts, the loading ends, with fuel for
  -- k + 1 attempts, without a panic and with the status ok. What was active stays active, a coherent
  -- service stays coherent, and every loadable subscription of every project of the user is active,
  -- whatever becomes of the others.
  pub load_subscriptions-IsActive :
      (fuel k : ℕ) (ps : PushService) (u : UserInfo) (h h' : History)
      → k < fuel
      → AnswersAfter env ps.ams_client.user_service ps.cfg.ams_token u h' k h
      → (s : State) × (load_subscriptions env fuel (ps, h) ≡ returns (some s))
        × (s.0.status ≡ "ok")
        × (IsCoherent ps → IsCoherent s.0)
        × ((n : String) (i : ℕ) → ps.push_workers n ≡ some i → s.0.push_workers n ≡ some i)
        × ((p : Project) (name : String) (sub : Subscription)
            → Elem p u.projects
            → Elem name p.subscriptions
            → IsServed ps.ams_client (full_sub_name p.project name) sub
            → IsLoadable env sub
            → IsActive s.0 sub.full_name)
  unfolding load_subscriptions
  load_subscriptions-IsActive fuel k ps u h h' lt a =
      let (text, r) = retrieve_user-finds env fuel k ps u h h' lt a in
      let (s, e, x, act) = load_projects-IsExtended u.projects (record ps { status = "ok" }, h') in
      (
        s,
        ap (after_user env) r ∙ ap (λ g. go_bind g λ t. returns (some t)) e,
        x.status_kept,
        λ c. x.coherent_kept (record { mapped = c.mapped; live = c.live; counted = c.counted }),
        x.still_active,
        act,
      )

  -- If the user of the push worker is found after k failed attempts, then the loading, with fuel for
  -- k + 1 attempts, ends without a panic, with the status ok and a coherent service; and a
  -- subscription of one of the user's projects is active if the messaging service answers with it,
  -- its push is enabled, its retry policy is known and its endpoint parses, whatever becomes of the
  -- other subscriptions.
  pub loadable-IsActive :
      (fuel k : ℕ) (ps : PushService) (u : UserInfo) (h h' : History) (p : Project) (name : String)
      (sub : Subscription)
      → k < fuel
      → AnswersAfter env ps.ams_client.user_service ps.cfg.ams_token u h' k h
      → IsCoherent ps
      → Elem p u.projects
      → Elem name p.subscriptions
      → IsServed ps.ams_client (full_sub_name p.project name) sub
      → IsLoadable env sub
      → (s : State) × (load_subscriptions env fuel (ps, h) ≡ returns (some s))
        × (s.0.status ≡ "ok")
        × IsCoherent s.0
        × IsActive s.0 sub.full_name
  loadable-IsActive fuel k ps u h h' p name sub lt a c m n v l =
      let (s, e, o, coherent, _, act) = load_subscriptions-IsActive fuel k ps u h h' lt a in
      (s, e, o, coherent c, act p name sub m n v l)
