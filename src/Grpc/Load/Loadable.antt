-- ===== src/Grpc/Load/Loadable.antt =====
-- api/v1/grpc/server.go: one subscription that is loaded, and what loading keeps of the service.
use ams_push_server.Base.{
  ok_inj, some_inj, none_ne, ℕ, String, eq_iff, ◌≡◌, ◌⊎◌, inl, inr, refl, ap, sym, ◌∙◌, true, none,
  some, Result, ok, arith, assign_self,
}
use ams_push_server.Environment.{Environment, History}
use ams_push_server.Proto
use ams_push_server.RetryPolicies.{linear_retry_policy, slow_start_retry_policy}
use ams_push_server.Ams.Types.{Subscription, is_push_enabled, http_endpoint_push_config}
use ams_push_server.Grpc.{PushService, GrpcError, add_worker}
use ams_push_server.Grpc.Activation.{
  IsActivation, IsComplete, incomplete, duplicate, bad_endpoint, unsupported, activated,
}
use ams_push_server.Grpc.System.Coherence.{IsCoherent}
use ams_push_server.Grpc.System.Reachable.{IsActivation-IsCoherent}
use ams_push_server.Grpc.Load.{to_request, push_type}

-- Loading only adds to the map of workers.
pub record IsExtended (ps ps' : PushService) : Type 0 where
  pub still_active : (n : String) (i : ℕ) → ps.push_workers n ≡ some i → ps'.push_workers n ≡ some i
  pub status_kept : ps'.status ≡ ps.status
  pub client_kept : ps'.ams_client ≡ ps.ams_client
  pub coherent_kept : IsCoherent ps → IsCoherent ps'

pub IsExtended-refl : (ps : PushService) → IsExtended ps ps
IsExtended-refl ps = record {
  still_active = λ n i e. e;
  status_kept = refl;
  client_kept = refl;
  coherent_kept = λ c. c;
}

pub IsExtended-trans : {a b c : PushService} → IsExtended a b → IsExtended b c → IsExtended a c
IsExtended-trans x y = record {
  still_active = λ n i e. y.still_active n i (x.still_active n i e);
  status_kept = y.status_kept ∙ x.status_kept;
  client_kept = y.client_kept ∙ x.client_kept;
  coherent_kept = λ c. y.coherent_kept (x.coherent_kept c);
}

pub IsActivation-IsExtended :
    {env : Environment} {ps : PushService} {r : Proto.ActivateSubscriptionRequest}
    {x : Result GrpcError String × PushService}
    → IsActivation env ps r x
    → IsExtended ps x.1
IsActivation-IsExtended {ps = ps} (incomplete e n k) = IsExtended-refl ps
IsActivation-IsExtended {ps = ps} (duplicate e sub cfg rp i w h k) = IsExtended-refl ps
IsActivation-IsExtended {ps = ps} (bad_endpoint e sub cfg rp t w h y u k) = IsExtended-refl ps
IsActivation-IsExtended {ps = ps} (unsupported e sub cfg rp w h f l s k) = IsExtended-refl ps
IsActivation-IsExtended {ps = ps} (activated message sub cfg rp w whole free fine new) = record {
  still_active = λ n i e. unfold add_worker in ground (arith, eq_iff sub.full_name n);
  status_kept = unfold add_worker in refl;
  client_kept = unfold add_worker in refl;
  coherent_kept =
      λ c. IsActivation-IsCoherent (activated message sub cfg rp w whole free fine new) c;
}

-- A subscription that the service can push: push enabled, of a known retry policy, and with an
-- endpoint that parses if its type is http_endpoint.
pub record IsLoadable (env : Environment) (sub : Subscription) : Type 0 where
  pub enabled : is_push_enabled sub ≡ true
  pub known_policy :
      (sub.push_cfg.ret_pol.policy_type ≡ linear_retry_policy)
      ⊎ (sub.push_cfg.ret_pol.policy_type ≡ slow_start_retry_policy)
  pub endpoint_fine :
      sub.push_cfg.type ≡ http_endpoint_push_config
      → env.parse_request_uri_error sub.push_cfg.pend ≡ none

abbrev pub IsActive : PushService → String → Type 0
IsActive ps name = (i : ℕ) × (ps.push_workers name ≡ some i)

-- What the request takes over from the subscription.
record Parts (sub : Subscription) (s : Proto.Subscription) (cfg : Proto.PushConfig)
    (rp : Proto.RetryPolicy) : Type 0 where
  name_is : s.full_name ≡ sub.full_name
  endpoint_is : cfg.push_endpoint ≡ sub.push_cfg.pend
  policy_is : rp.type ≡ sub.push_cfg.ret_pol.policy_type
  type_is : cfg.type ≡ push_type sub.push_cfg.type

parts :
    (sub : Subscription) {s : Proto.Subscription} {cfg : Proto.PushConfig} {rp : Proto.RetryPolicy}
    → IsComplete (to_request sub) s cfg rp
    → Parts sub s cfg rp
unfolding to_request
parts sub w =
    let es = some_inj w.subscription_is in
    let ec = some_inj (ap (λ x. x.push_config) es ∙ w.config_is) in
    let er = some_inj (ap (λ x. x.retry_policy) ec ∙ w.policy_is) in
    record {
      name_is = ap (λ x. x.full_name) (sym es);
      endpoint_is = ap (λ x. x.push_endpoint) (sym ec);
      policy_is = ap (λ x. x.type) (sym er);
      type_is = ap (λ x. x.type) (sym ec);
    }

http_only : (t : String) → push_type t ≡ Proto.http_endpoint → t ≡ http_endpoint_push_config
unfolding push_type
http_only t e = ground (arith, eq_iff t http_endpoint_push_config)

-- The request is never refused as incomplete.
request_whole :
    (sub : Subscription)
    → (s : Proto.Subscription) × (cfg : Proto.PushConfig) × (rp : Proto.RetryPolicy) × IsComplete
        (to_request sub)
        s
        cfg
        rp
unfolding to_request
request_whole sub = (_, _, _, record { subscription_is = refl; config_is = refl; policy_is = refl })

pub same_answer :
    {a b : Subscription} {h k : History}
    → ◌≡◌ {A = Result String Subscription × History} (ok a, h) (ok b, k)
    → a ≡ b
same_answer e = ok_inj (ap (λ x. x.0) e)

-- Activating a loadable subscription leaves it active, whether it was before or not.
pub IsActivation-IsActive :
    {env : Environment} {ps : PushService} {x : Result GrpcError String × PushService}
    (sub : Subscription)
    → IsLoadable env sub
    → IsActivation env ps (to_request sub) x
    → IsActive x.1 sub.full_name
IsActivation-IsActive sub l (incomplete e n k) =
    let (s, cfg, rp, w) = request_whole sub in absurd (n s cfg rp w)
IsActivation-IsActive {ps = ps} sub l (duplicate e s cfg rp i w h k) =
    (i, ap ps.push_workers (sym (parts sub w).name_is) ∙ h)
IsActivation-IsActive {env} sub l (bad_endpoint e s cfg rp t w h y u k) =
    let p = parts sub w in
    absurd (
      none_ne (
        sym (l.endpoint_fine (http_only _ (sym p.type_is ∙ y)))
        ∙ ap env.parse_request_uri_error (sym p.endpoint_is)
        ∙ u))
IsActivation-IsActive sub l (unsupported e s cfg rp w h f no_l no_s k) =
    let p = parts sub w in
    elim l.known_policy [
      | inl q ↦ absurd (no_l (p.policy_is ∙ q))
      | inr q ↦ absurd (no_s (p.policy_is ∙ q))
    ]
IsActivation-IsActive {ps = ps} sub l (activated message s cfg rp w whole free fine new) = (
  ps.started,
  ap (add_worker ps s.full_name w).push_workers (sym (parts sub whole).name_is)
      ∙ unfold add_worker in assign_self s.full_name ps.started ps.push_workers,
)
