-- ===== src/Grpc/Interceptors/Gate.antt =====
-- api/v1/grpc/interceptors.go and server.go: a service whose status is not ok.
use ams_push_server.Base.{
  ℕ, String, ◌==◌, ◌≡◌, ◌⊎◌, inl, inr, refl, ap, ◌∙◌, Bool, true, false, List, [], ◌∷◌, some,
  Result, ok, err, Go, returns, go_bind, All, length, suc,
}
use ams_push_server.Environment.{Environment, History}
use ams_push_server.Config.{Config}
use ams_push_server.Grpc.{
  PushService, GrpcError, internal, unauthenticated, new_push_service, status,
}
use ams_push_server.Grpc.Load.{start_service}
use ams_push_server.Grpc.Interceptors.{
  Context, status_interceptor, auth_interceptor, Call, status_call, subscription_status_call,
  activate_call, deactivate_call, full_method, handle, serve,
}
use ams_push_server.Grpc.Interceptors.Access.{IsHonest, auth_interceptor-Decides}

-- The call is answered with an error, and changes nothing.
abbrev pub IsRefused : PushService → Go (Result GrpcError String × PushService) → Type 0
IsRefused ps r =
    (e : GrpcError) × (r ≡ returns (err e, ps)) × ((e.code ≡ internal) ⊎ (e.code ≡ unauthenticated))

closed_gate :
    (env : Environment) (call : Call) (ps : PushService)
    → (ps.status == "ok") ≡ false
    → IsRefused ps (status_interceptor (full_method call) (handle env call) ps)
unfolding status_interceptor full_method handle
closed_gate env status_call ps f = rw (f, status) (_, refl, inl refl)
closed_gate env (subscription_status_call r) ps f = rw f (_, refl, inl refl)
closed_gate env (activate_call r) ps f = rw f (_, refl, inl refl)
closed_gate env (deactivate_call r) ps f = rw f (_, refl, inl refl)

gate_at :
    (env : Environment) (ctx : Context) (call : Call) (ps : PushService) (tls : Bool)
    → IsHonest ctx
    → (ps.status == "ok") ≡ false
    → IsRefused ps (
        auth_interceptor ps.cfg.acl
          (status_interceptor (full_method call) (handle env call))
          tls
          ctx
          ps)
gate_at env ctx call ps false honest f = unfold auth_interceptor in closed_gate env call ps f
gate_at env ctx call ps true honest f =
    elim (auth_interceptor-Decides ps.cfg.acl
      (status_interceptor (full_method call) (handle env call)) ps ctx honest) [
        | inl (a, e) ↦ rw e (closed_gate env call ps f)
        | inr (n, g, u, e) ↦ (g, e, inr u)
      ]

-- While the status of the service is not ok, every call is answered with an error, internal or
-- unauthenticated, and changes nothing, whoever makes it, if no connection but one by tls says that
-- its type is tls.
pub serve-IsRefused :
    (env : Environment) (ctx : Context) (call : Call) (ps : PushService)
    → IsHonest ctx
    → (ps.status == "ok") ≡ false
    → IsRefused ps (serve env ctx call ps)
unfolding serve
serve-IsRefused env ctx call ps honest f = gate_at env ctx call ps ps.cfg.tls_enabled honest f

-- The replies to a sequence of calls.
pub serve_all :
    Environment
    → List (Context × Call)
    → PushService
    → Go (List (Result GrpcError String) × PushService)
serve_all env [] ps = returns ([], ps)
serve_all env ((ctx, call) ∷ rest) ps = go_bind (serve env ctx call ps) λ (reply, ps').
    go_bind (serve_all env rest ps') λ (replies, ps''). returns (reply ∷ replies, ps'')

abbrev pub IsError : Result GrpcError String → Type 0
IsError (ok t) = ⊥
IsError (err e) = Unit

serve_all-refused :
    (env : Environment) (calls : List (Context × Call)) (ps : PushService)
    → All (λ c. IsHonest c.0) calls
    → (ps.status == "ok") ≡ false
    → (replies : List (Result GrpcError String)) × (serve_all env calls ps ≡ returns (replies, ps))
      × All IsError replies
      × (length replies ≡ length calls)
unfolding serve_all
serve_all-refused env [] ps honest f = ([], refl, tt, refl)
serve_all-refused env ((ctx, call) ∷ rest) ps honest f =
    let (e, s, _) = serve-IsRefused env ctx call ps honest.0 f in
    let (replies, t, u, v) = serve_all-refused env rest ps honest.1 f in
    (
      err e ∷ replies,
      ap
            (λ g. go_bind g λ (reply, ps').
              go_bind (serve_all env rest ps') λ (replies, ps''). returns (reply ∷ replies, ps''))
            s
          ∙ ap (λ g. go_bind g λ (replies, ps''). returns (err e ∷ replies, ps'')) t,
      (tt, u),
      ap suc v,
    )

-- A service that is configured not to load its subscriptions never serves: whatever is called, and
-- whoever calls, each reply is an error and the service stays as it was at its start, if no
-- connection but one by tls says that its type is tls.
pub skip_subs_load-refuses :
    (env : Environment) (fuel : ℕ) (cfg : Config) (h : History) (calls : List (Context × Call))
    → cfg.skip_subs_load ≡ true
    → All (λ c. IsHonest c.0) calls
    → (s : PushService × History) × (start_service env fuel cfg h ≡ returns (some s))
      × (replies : List (Result GrpcError String)) × (serve_all env calls s.0
          ≡ returns (replies, s.0))
      × All IsError replies
      × (length replies ≡ length calls)
unfolding start_service
skip_subs_load-refuses env fuel cfg h calls skip honest =
    let (replies, t, u, v) =
      serve_all-refused env calls (new_push_service env cfg) honest
        (unfold new_push_service in refl) in
    ((new_push_service env cfg, h), rw skip refl, replies, t, u, v)
