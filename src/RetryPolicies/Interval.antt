-- ===== src/RetryPolicies/Interval.antt =====
-- retrypolicies/slowstart.go: one reset against a description of the interval in plain numbers.
use ams_push_server.Base.{
  ℕ, ◌*◌, ◌/◌, ◌≤◌, min, max, String, ◌≡◌, ◌==◌, Bool, not, some, arith, if◌then◌else◌,
}
use ams_push_server.Base.Int64.{mul-exact, half-exact, slt-exact}
use ams_push_server.RetryPolicies.{
  Slowstart, reset_slowstart, slow_start_initial_interval, slow_start_lower_time_bound,
  slow_start_upper_time_bound,
}

-- The interval stays between 300 milliseconds and 24 hours.
pub record IsBounded (s : Slowstart) : Type 0 where
  pub lower : slow_start_lower_time_bound ≤ s.previous_restart_interval
  pub upper : s.previous_restart_interval ≤ slow_start_upper_time_bound

-- The interval after a cycle, from the one before, whether the last cycle failed, and whether this
-- one did not.
unfoldable pub next_interval : ℕ → Bool → Bool → ℕ
next_interval interval failed_before clear =
    if not clear
    then min slow_start_upper_time_bound (interval * 2)
    else if failed_before
    then slow_start_initial_interval
    else max slow_start_lower_time_bound (interval / 2)

-- From a bounded interval a reset sets the timer and remembers what the description says, with no
-- overflow of the 64-bit arithmetic, and remembers whether the cycle failed.
pub reset_slowstart-next_interval :
    (s : Slowstart) (error : String)
    → IsBounded s
    → ((reset_slowstart s error).previous_restart_interval
        ≡ next_interval s.previous_restart_interval s.previous_error (error == ""))
      × ((reset_slowstart s error).previous_error ≡ not (error == ""))
      × ((reset_slowstart s error).timer.active
          ≡ some (next_interval s.previous_restart_interval s.previous_error (error == "")))
unfolding reset_slowstart next_interval
reset_slowstart-next_interval s error b = ground (
  arith,
  mul-exact s.previous_restart_interval 2,
  half-exact s.previous_restart_interval,
  slt-exact (s.previous_restart_interval / 2) slow_start_lower_time_bound,
  slt-exact slow_start_upper_time_bound (s.previous_restart_interval * 2),
)

next_interval_bounds :
    (interval : ℕ) (failed_before clear : Bool)
    → slow_start_lower_time_bound ≤ interval
    → interval ≤ slow_start_upper_time_bound
    → (slow_start_lower_time_bound ≤ next_interval interval failed_before clear)
      × (next_interval interval failed_before clear ≤ slow_start_upper_time_bound)
unfolding next_interval
next_interval_bounds interval failed_before clear p q = ground arith

-- A reset of an interval between 300 milliseconds and 24 hours keeps it there.
pub reset_slowstart-IsBounded :
    (s : Slowstart) (error : String) → IsBounded s → IsBounded (reset_slowstart s error)
reset_slowstart-IsBounded s error b = ground (
  arith,
  reset_slowstart-next_interval s error b,
  next_interval_bounds s.previous_restart_interval s.previous_error (error == "") b.lower b.upper,
)
