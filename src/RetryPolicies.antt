-- ===== src/RetryPolicies.antt =====
-- retrypolicies/*.go: the linear and the slowstart policy, and the factory. Durations are int64
-- nanoseconds, as bit patterns with Go's wrap-around.
pub mod Interval
pub mod Runs
use ams_push_server.Base.{
  ℕ, ◌*◌, String, ◌==◌, Bool, true, false, not, ◌&&◌, if◌then◌else◌, Result, ok, err,
}
use ams_push_server.Base.Int64.{mul, half, slt}
use ams_push_server.Timer.{Timer, new_timer, reset_timer}
use ams_push_server.Proto

abbrev pub linear_retry_policy : String
linear_retry_policy = "linear"

abbrev pub slow_start_retry_policy : String
slow_start_retry_policy = "slowstart"

abbrev pub millisecond : ℕ
millisecond = 1_000_000

abbrev pub slow_start_initial_interval : ℕ
slow_start_initial_interval = 1_000_000_000

abbrev pub slow_start_lower_time_bound : ℕ
slow_start_lower_time_bound = 300 * millisecond

abbrev pub slow_start_upper_time_bound : ℕ
slow_start_upper_time_bound = 86_400_000_000_000

pub record Linear : Type 0 where
  pub period : ℕ
  pub timer : Timer

pub record Slowstart : Type 0 where
  pub previous_restart_interval : ℕ
  pub previous_error : Bool
  pub timer : Timer

-- func (l *Linear) Reset(err string)
unfoldable pub reset_linear : Linear → String → Linear
reset_linear l error = record l { timer = reset_timer l.period l.timer }

-- The two variables that `Slowstart.Reset` works on: `restartInterval` and `s.previousError`.
record Draft : Type 0 where
  restart_interval : ℕ
  previous_error : Bool

-- "if there was no error registered and there is STILL NO error, half the interval"
halve_if_clear : Slowstart → String → Draft → Draft
halve_if_clear s error d =
    if not d.previous_error && error == ""
    then record d {
      restart_interval =
          if slt (half s.previous_restart_interval) slow_start_lower_time_bound
          then slow_start_lower_time_bound
          else half s.previous_restart_interval;
    }
    else d

-- "if there is an error, double the interval"
double_if_error : Slowstart → String → Draft → Draft
double_if_error s error d =
    if not (error == "")
    then record {
      restart_interval =
          if slt slow_start_upper_time_bound (mul s.previous_restart_interval 2)
          then slow_start_upper_time_bound
          else mul s.previous_restart_interval 2;
      previous_error = true;
    }
    else d

-- "if there was previously an error that has now been resolved, reset the timer"
restore_if_resolved : String → Draft → Draft
restore_if_resolved error d =
    if d.previous_error && error == ""
    then record { restart_interval = slow_start_initial_interval; previous_error = false }
    else d

update_interval : Slowstart → Draft → Slowstart
update_interval s d = record {
  previous_restart_interval = d.restart_interval;
  previous_error = d.previous_error;
  timer = reset_timer d.restart_interval s.timer;
}

-- func (s *Slowstart) Reset(err string)
unfoldable pub reset_slowstart : Slowstart → String → Slowstart
unfolding halve_if_clear double_if_error restore_if_resolved update_interval
reset_slowstart s error = update_interval s (
    restore_if_resolved error (
      double_if_error s error (
        halve_if_clear s error
          (record { restart_interval = 0; previous_error = s.previous_error }))))

-- The interface, with one constructor for each type that implements it.
pub data RetryPolicy : Type 0 where
  linear : Linear → RetryPolicy
  slowstart : Slowstart → RetryPolicy

unfoldable pub reset : RetryPolicy → String → RetryPolicy
unfolding reset_linear reset_slowstart
reset (linear l) error = linear (reset_linear l error)
reset (slowstart s) error = slowstart (reset_slowstart s error)

-- Timer(), and the same policy with its timer changed, since the timer is shared by pointer.
abbrev pub timer : RetryPolicy → Timer
timer (linear l) = l.timer
timer (slowstart s) = s.timer

abbrev pub with_timer : Timer → RetryPolicy → RetryPolicy
with_timer t (linear l) = linear (record l { timer = t })
with_timer t (slowstart s) = slowstart (record s { timer = t })

-- func New(rp *amsPb.RetryPolicy)
unfoldable pub new : Proto.RetryPolicy → Result String RetryPolicy
unfolding mul
new rp =
    if rp.type == linear_retry_policy
    then ok (linear (record { period = mul rp.period millisecond; timer = new_timer 0 }))
    else if rp.type == slow_start_retry_policy
    then ok (
        slowstart (record {
          previous_restart_interval = slow_start_initial_interval;
          previous_error = false;
          timer = new_timer slow_start_initial_interval;
        }))
    else err "not implemented"
