-- ===== src/Push/Made.antt =====
-- push/worker.go: the worker factory, for a subscription whose pointers are not nil.
use ams_push_server.Base.{
  Result, sym, ok_inj, returns_inj, go_bind-returns, String, ◌≡◌, ap, ◌∙◌, false, Option, some, ok,
  err, returns, go_bind, deref,
}
use ams_push_server.Proto
use ams_push_server.Consumers.{Consumer}
use ams_push_server.Senders.{Sender}
use ams_push_server.RetryPolicies
use ams_push_server.RetryPolicies.{RetryPolicy}
use ams_push_server.Push.{Worker, new, made}

module _ {W : Type 0} (sub : Proto.Subscription) (c : Consumer W) (s : Option (Sender W)) where
  -- A worker that has just been made around a policy.
  abbrev pub new_worker : RetryPolicy → Worker W
  new_worker p = record {
    sub = sub;
    consumer = c;
    sender = s;
    cancelled = false;
    retry_policy = p;
    push_err = "";
  }

  module _ {cfg : Proto.PushConfig} {rp : Proto.RetryPolicy}
      (config_is : sub.push_config ≡ some cfg) (policy_is : cfg.retry_policy ≡ some rp) where
    new-made : new sub c s ≡ returns (made sub c s rp (RetryPolicies.new rp))
    unfolding new
    new-made =
        ap
          (λ o.
            go_bind (deref o) λ g.
              go_bind (deref g.retry_policy) λ q. returns (made sub c s q (RetryPolicies.new q)))
          config_is
        ∙ ap (λ o. go_bind (deref o) λ q. returns (made sub c s q (RetryPolicies.new q))) policy_is

    pub new-ok :
        {p : RetryPolicy} → RetryPolicies.new rp ≡ ok p → new sub c s ≡ returns (ok (new_worker p))
    unfolding made
    new-ok e = new-made ∙ ap (λ x. returns (made sub c s rp x)) e

    pub new-err :
        {t : String} → RetryPolicies.new rp ≡ err t → (u : String) × (new sub c s ≡ returns (err u))
    unfolding made
    new-err e = (_, new-made ∙ ap (λ x. returns (made sub c s rp x)) e)

made-runs :
    {W : Type 0} (sub : Proto.Subscription) (c : Consumer W) (s : Option (Sender W))
    (rp : Proto.RetryPolicy) (p : Result String RetryPolicy) {w : Worker W}
    → made sub c s rp p ≡ ok w
    → (w.sub ≡ sub) × (w.cancelled ≡ false)
unfolding made
made-runs sub c s rp (ok p) e =
    let same = sym (ok_inj e) in (ap (λ w. w.sub) same, ap (λ w. w.cancelled) same)
made-runs sub c s rp (err t) e = cc

-- A worker that was made has the subscription that it was made for, and is not stopped.
pub new-runs :
    {W : Type 0} (sub : Proto.Subscription) (c : Consumer W) (s : Option (Sender W)) {w : Worker W}
    → new sub c s ≡ returns (ok w)
    → (w.sub ≡ sub) × (w.cancelled ≡ false)
unfolding new
new-runs sub c s e =
    let (cfg, _, f) = go_bind-returns (deref sub.push_config) _ e in
    let (rp, _, g) = go_bind-returns (deref cfg.retry_policy) _ f in
    made-runs sub c s rp (RetryPolicies.new rp) (returns_inj g)

made-shape :
    {W : Type 0} (sub : Proto.Subscription) (c : Consumer W) (s : Option (Sender W))
    (rp : Proto.RetryPolicy) (r : Result String RetryPolicy) {w : Worker W}
    → made sub c s rp r ≡ ok w
    → (p : RetryPolicy) × (new_worker sub c s p ≡ w)
unfolding made
made-shape sub c s rp (ok p) e = (p, ok_inj e)
made-shape sub c s rp (err t) e = cc

-- A worker that was made is a new one around some policy.
pub new-shape :
    {W : Type 0} (sub : Proto.Subscription) (c : Consumer W) (s : Option (Sender W)) {w : Worker W}
    → new sub c s ≡ returns (ok w)
    → (p : RetryPolicy) × (new_worker sub c s p ≡ w)
unfolding new
new-shape sub c s e =
    let (cfg, _, f) = go_bind-returns (deref sub.push_config) _ e in
    let (rp, _, g) = go_bind-returns (deref cfg.retry_policy) _ f in
    made-shape sub c s rp (RetryPolicies.new rp) (returns_inj g)
