-- ===== src/Push/Loop/Armed.antt =====
-- push/worker.go and retrypolicies/*.go: the timer of a worker, which is armed or spent.
use mathlib.Core.Path.{subst}
use ams_push_server.Base.{
  ℕ, String, ◌==◌, ◌≡◌, inl, inr, refl, true, false, none, some, arith, Bool-cases, ok, ok_inj,
  err_ne,
}
use ams_push_server.Proto
use ams_push_server.Timer.{Timer, fire, drain}
use ams_push_server.RetryPolicies
use ams_push_server.RetryPolicies.{
  RetryPolicy, linear, slowstart, linear_retry_policy, slow_start_retry_policy,
  slow_start_initial_interval,
}
use ams_push_server.Push.Loop.{stopped_timer}

-- A timer that runs with an empty channel, or has fired with a value in it.
pub data IsArmed (t : Timer) : Type 0 where
  running : (d : ℕ) → t.active ≡ some d → t.pending ≡ false → IsArmed t
  fired : t.active ≡ none → t.pending ≡ true → IsArmed t

-- A timer that was received from, or stopped.
pub record IsSpent (t : Timer) : Type 0 where
  pub stopped : t.active ≡ none
  pub empty : t.pending ≡ false

pub fire-IsArmed : (t : Timer) → IsArmed t → IsArmed (fire t)
fire-IsArmed t (running d a p) = fired (ground arith) (ground arith)
fire-IsArmed t (fired a p) = fired (ground arith) (ground arith)

pub fire-IsSpent : (t : Timer) → IsSpent t → IsSpent (fire t)
fire-IsSpent t h = ground arith

pub timer-with_timer :
    (t : Timer) (p : RetryPolicy) → RetryPolicies.timer (RetryPolicies.with_timer t p) ≡ t
timer-with_timer t (linear l) = refl
timer-with_timer t (slowstart s) = refl

-- A reset starts the timer and leaves its channel alone.
pub timer-reset :
    (p : RetryPolicy) (error : String)
    → (d : ℕ) × (RetryPolicies.timer (RetryPolicies.reset p error)
        ≡ record { active = some d; pending = (RetryPolicies.timer p).pending })
unfolding RetryPolicies.reset
timer-reset (linear l) error = (_, refl)
timer-reset (slowstart s) error = (_, refl)

pub drained_IsSpent : (t : Timer) → IsArmed t → t.pending ≡ true → IsSpent (drain t)
drained_IsSpent t (running d a p) q = absurd (ground arith)
drained_IsSpent t (fired a p) q = record { stopped = a; empty = refl }

-- Stopping an armed timer never waits, and leaves it spent.
pub stopped_timer-IsSpent :
    (t : Timer) → IsArmed t → (t' : Timer) × (stopped_timer t ≡ some t') × IsSpent t'
unfolding stopped_timer
stopped_timer-IsSpent t (running d a p) =
    (record t { active = none }, ground arith, record { stopped = refl; empty = p })
stopped_timer-IsSpent t (fired a p) = (drain t, ground arith, record { stopped = a; empty = refl })

pub fire-pending : (t : Timer) → IsArmed t → (fire t).pending ≡ true
fire-pending t (running d a p) = ground arith
fire-pending t (fired a p) = ground arith

-- A new policy has a running timer.
pub new-IsArmed :
    (rp : Proto.RetryPolicy) {p : RetryPolicy}
    → RetryPolicies.new rp ≡ ok p
    → IsArmed (RetryPolicies.timer p)
unfolding RetryPolicies.new
new-IsArmed rp e = elim (Bool-cases (rp.type == linear_retry_policy)) [
  | inl t ↦ subst (λ p. IsArmed (RetryPolicies.timer p)) (ok_inj (rw t at e)) (running 0 refl refl)
  | inr f ↦ elim (Bool-cases (rp.type == slow_start_retry_policy)) [
    | inl t ↦
        subst (λ p. IsArmed (RetryPolicies.timer p)) (ok_inj (rw (f, t) at e))
          (running slow_start_initial_interval refl refl)
    | inr g ↦ absurd (err_ne (rw (f, g) at e))
  ]
]
