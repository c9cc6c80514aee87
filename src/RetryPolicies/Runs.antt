-- ===== src/RetryPolicies/Runs.antt =====
-- retrypolicies/slowstart.go: the interval over many cycles, and the linear policy.
use ams_push_server.Base.{
  err_ne, ◌⊎◌, ℕ, zero, suc, ◌*◌, ◌/◌, ◌^◌, ◌≤◌, ◌<◌, min, max, String, ◌≡◌, ◌≢◌, refl, ◌∙◌, ◌==◌,
  false, arith, Bool-cases, inl, inr, List, [], ◌∷◌, length, All, Result, ok, err, eq_iff,
  ne_of_test, replicate,
}
use ams_push_server.Base.Int64.{mul-exact}
use native.Mathlib.Nat.{
  pow-suc, pow-succ', div-le_self, div-le_of_le-mul, pow-le-pow_right, div-div-eq-div-mul,
  mul_assoc,
}
use native.Mathlib.Decide.{dec_le}
use ams_push_server.Timer.{new_timer}
use ams_push_server.Proto
use ams_push_server.RetryPolicies.{
  Slowstart, Linear, RetryPolicy, linear, slowstart, new, reset_slowstart,
  slow_start_lower_time_bound, slow_start_upper_time_bound, linear_retry_policy,
  slow_start_retry_policy, millisecond,
}
use ams_push_server.RetryPolicies.Interval.{
  IsBounded, next_interval, reset_slowstart-next_interval, reset_slowstart-IsBounded,
}

-- One reset for each finished cycle, with the error that the cycle left.
abbrev pub resets : Slowstart → List String → Slowstart
resets s [] = s
resets s (error ∷ rest) = resets (reset_slowstart s error) rest

pub resets-IsBounded :
    (s : Slowstart) (errors : List String) → IsBounded s → IsBounded (resets s errors)
resets-IsBounded s [] b = b
resets-IsBounded s (error ∷ rest) b =
    resets-IsBounded (reset_slowstart s error) rest (reset_slowstart-IsBounded s error b)

abbrev pub IsError : String → Type 0
IsError error = (error == "") ≡ false

pub reset_error :
    (s : Slowstart) (error : String)
    → IsBounded s
    → IsError error
    → (reset_slowstart s error).previous_restart_interval
      ≡ min slow_start_upper_time_bound (s.previous_restart_interval * 2)
unfolding next_interval
reset_error s error b e = ground (arith, reset_slowstart-next_interval s error b)

reset_clear :
    (s : Slowstart)
    → IsBounded s
    → s.previous_error ≡ false
    → ((reset_slowstart s "").previous_restart_interval
        ≡ max slow_start_lower_time_bound (s.previous_restart_interval / 2))
      × ((reset_slowstart s "").previous_error ≡ false)
unfolding next_interval
reset_clear s b e = ground (arith, reset_slowstart-next_interval s "" b)

two_pow_pos : (n : ℕ) → 1 ≤ 2 ^ n
two_pow_pos zero = omega arith
two_pow_pos (suc n) = omega (arith, pow-suc 2 n, two_pow_pos n)

min_mul : (u x k : ℕ) → 1 ≤ k → min u (min u x * k) ≡ min u (x * k)
min_mul u x k h = elim (dec_le u x) [
  | yes p ↦
      let q : u * 1 ≤ u * k = grind arith in
      let r : u * 1 ≤ x * k = grind arith in ground (arith, q, r)
  | no p ↦ let e : min u x ≡ x = omega arith in rw e
]

max_div : (l x k : ℕ) → max l (max l x / k) ≡ max l (x / k)
max_div l x k = elim (dec_le l x) [
  | yes p ↦ let e : max l x ≡ x = omega arith in rw e
  | no p ↦
      let e : max l x ≡ l = omega arith in rw e (omega (arith, div-le_self l k, div-le_self x k))
]

-- From an interval within its bounds, after n failed cycles in a row the interval has doubled n
-- times, up to 24 hours.
pub resets-errors :
    (s : Slowstart) (errors : List String)
    → IsBounded s
    → All IsError errors
    → (resets s errors).previous_restart_interval
      ≡ min slow_start_upper_time_bound (s.previous_restart_interval * 2 ^ length errors)
resets-errors s [] b h = omega arith
resets-errors s (error ∷ rest) b h =
    resets-errors (reset_slowstart s error) rest (reset_slowstart-IsBounded s error b) h.1
    ∙ rw (
      reset_error s error b h.0,
      min_mul _ _ _ (two_pow_pos (length rest)),
      pow-succ' 2 (length rest),
      mul_assoc,
    )

-- From an interval within its bounds, after n cycles in a row without an error the interval has
-- halved n times, down to 300 milliseconds, if the last cycle before them did not fail.
pub resets-clear :
    (s : Slowstart) (n : ℕ)
    → IsBounded s
    → s.previous_error ≡ false
    → (resets s (replicate n "")).previous_restart_interval
      ≡ max slow_start_lower_time_bound (s.previous_restart_interval / 2 ^ n)
resets-clear s zero b h =
    let e : s.previous_restart_interval / 1 ≡ s.previous_restart_interval = omega arith in
    rw e (omega arith)
resets-clear s (suc n) b h =
    resets-clear (reset_slowstart s "") n (reset_slowstart-IsBounded s "" b) (reset_clear s b h).1
    ∙ rw ((reset_clear s b h).0, max_div, div-div-eq-div-mul, pow-succ' 2 n)

-- From 19 doublings on, the lower bound passes the upper one.
bounds_apart : (n : ℕ) → 19 ≤ n → slow_start_upper_time_bound ≤ 2 ^ n * slow_start_lower_time_bound
bounds_apart n h =
    let more : 2 ^ 19 ≤ 2 ^ n = pow-le-pow_right (omega arith) h in omega (arith, more)

upper_le : (p q k : ℕ) → p ≤ q → k * p ≤ q * k
upper_le p q k h = grind arith

-- Nineteen or more failed cycles in a row set the interval to 24 hours, whatever it was within its
-- bounds.
pub resets_reach_upper :
    (s : Slowstart) (errors : List String)
    → IsBounded s
    → All IsError errors
    → 19 ≤ length errors
    → (resets s errors).previous_restart_interval ≡ slow_start_upper_time_bound
resets_reach_upper s errors b h enough = rw (resets-errors s errors b h) (
    omega (
      arith,
      bounds_apart (length errors) enough,
      upper_le _ s.previous_restart_interval (2 ^ length errors) b.lower,
    ))

-- Nineteen or more cycles in a row without an error set the interval to 300 milliseconds, whatever
-- it was within its bounds, if the last cycle before them did not fail.
pub resets_reach_lower :
    (s : Slowstart) (n : ℕ)
    → IsBounded s
    → s.previous_error ≡ false
    → 19 ≤ n
    → (resets s (replicate n "")).previous_restart_interval ≡ slow_start_lower_time_bound
resets_reach_lower s n b h enough =
    let down : s.previous_restart_interval / 2 ^ n ≤ slow_start_lower_time_bound =
      div-le_of_le-mul (2 ^ n) (omega (arith, bounds_apart n enough)) in
    rw (resets-clear s n b h) (omega (arith, down))

-- A new policy is made for the types linear and slowstart and for no other. Its timer runs and its
-- channel is empty; a linear period is the requested one in nanoseconds, with no overflow, for any
-- uint32; a slowstart interval is within its bounds, with no error remembered.
pub data IsFresh (rp : Proto.RetryPolicy) : RetryPolicy → Type 0 where
  fresh_linear :
      (l : Linear)
      → rp.type ≡ linear_retry_policy
      → l.period ≡ rp.period * millisecond
      → l.timer ≡ new_timer 0
      → IsFresh rp (linear l)
  fresh_slowstart :
      (s : Slowstart)
      → rp.type ≡ slow_start_retry_policy
      → IsBounded s
      → s.previous_error ≡ false
      → s.timer ≡ new_timer s.previous_restart_interval
      → IsFresh rp (slowstart s)

-- The result of the factory: a fresh policy, or the error for every other type.
pub data IsMade (rp : Proto.RetryPolicy) : Result String RetryPolicy → Type 0 where
  made : (p : RetryPolicy) → IsFresh rp p → IsMade rp (ok p)
  refused :
      rp.type ≢ linear_retry_policy
      → rp.type ≢ slow_start_retry_policy
      → IsMade rp (err "not implemented")

-- For every uint32 period the factory makes a fresh policy of the requested type, or refuses a type
-- that is neither linear nor slowstart.
pub new-IsMade : (rp : Proto.RetryPolicy) → rp.period < 2 ^ 32 → IsMade rp (new rp)
unfolding new
new-IsMade rp h = elim (Bool-cases (rp.type == linear_retry_policy)) [
  | inl t ↦ rw t (
      made _ (
        fresh_linear _ ((eq_iff rp.type linear_retry_policy).0 t)
          (mul-exact rp.period millisecond (omega arith)) refl))
  | inr f ↦ elim (Bool-cases (rp.type == slow_start_retry_policy)) [
    | inl t ↦
        rw (f, t)
          (made _ (
            fresh_slowstart _ ((eq_iff rp.type slow_start_retry_policy).0 t) (omega arith) refl
              refl))
    | inr g ↦ rw (f, g) (refused (ne_of_test f) (ne_of_test g))
  ]
]

-- The factory refuses a policy for its type alone.
pub new-refused :
    (rp : Proto.RetryPolicy) {t : String}
    → new rp ≡ err t
    → (rp.type ≢ linear_retry_policy) × (rp.type ≢ slow_start_retry_policy)
unfolding new
new-refused rp e = (
  λ l. ground (arith, eq_iff rp.type linear_retry_policy),
  λ s. ground (arith, eq_iff rp.type slow_start_retry_policy),
)

-- A policy is made for one of the two known types.
pub new-known :
    (rp : Proto.RetryPolicy) {p : RetryPolicy}
    → new rp ≡ ok p
    → (rp.type ≡ linear_retry_policy) ⊎ (rp.type ≡ slow_start_retry_policy)
unfolding new
new-known rp e = elim (Bool-cases (rp.type == linear_retry_policy)) [
  | inl t ↦ inl ((eq_iff rp.type linear_retry_policy).0 t)
  | inr f ↦ elim (Bool-cases (rp.type == slow_start_retry_policy)) [
    | inl t ↦ inr ((eq_iff rp.type slow_start_retry_policy).0 t)
    | inr g ↦ absurd (err_ne (rw (f, g) at e))
  ]
]
