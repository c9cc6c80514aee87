-- ===== src/Examples/Retries.antt =====
-- retrypolicies: the theorems at concrete intervals and runs of cycles.
use ams_push_server.Base.{
  min, max, ◌*◌, ◌/◌, ◌^◌, ◌==◌, not, String, ◌≡◌, refl, false, List, [], ◌∷◌, some, arith,
  replicate, length,
}
use ams_push_server.RetryPolicies
use ams_push_server.RetryPolicies.{
  Slowstart, reset_slowstart, slow_start_lower_time_bound, slow_start_upper_time_bound,
}
use ams_push_server.RetryPolicies.Interval.{
  IsBounded, next_interval, reset_slowstart-next_interval, reset_slowstart-IsBounded,
}
use ams_push_server.RetryPolicies.Runs.{resets, resets-errors, resets-clear, IsMade, new-IsMade}
use ams_push_server.Examples.{slow_policy}

slow_policy-IsBounded : IsBounded slow_policy
slow_policy-IsBounded = record { lower = omega arith; upper = omega arith }

reset_slowstart-next_interval_example :
    ((reset_slowstart slow_policy "refused").previous_restart_interval
      ≡ next_interval 1_000_000_000 false ("refused" == ""))
    × ((reset_slowstart slow_policy "refused").previous_error ≡ not ("refused" == ""))
    × ((reset_slowstart slow_policy "refused").timer.active
        ≡ some (next_interval 1_000_000_000 false ("refused" == "")))
reset_slowstart-next_interval_example =
    reset_slowstart-next_interval slow_policy "refused" slow_policy-IsBounded

reset_slowstart-IsBounded_example : IsBounded (reset_slowstart slow_policy "refused")
reset_slowstart-IsBounded_example =
    reset_slowstart-IsBounded slow_policy "refused" slow_policy-IsBounded

abbrev errors : List String
errors = "refused" ∷ "timed out" ∷ []

resets-errors_example :
    (resets slow_policy errors).previous_restart_interval
    ≡ min slow_start_upper_time_bound (1_000_000_000 * 2 ^ length errors)
resets-errors_example = resets-errors slow_policy errors slow_policy-IsBounded (refl, (refl, tt))

resets-clear_example :
    (resets slow_policy (replicate 3 "")).previous_restart_interval
    ≡ max slow_start_lower_time_bound (1_000_000_000 / 2 ^ 3)
resets-clear_example = resets-clear slow_policy 3 slow_policy-IsBounded refl

new-IsMade_example :
    IsMade
      (record { type = "linear"; period = 3000 })
      (RetryPolicies.new (record { type = "linear"; period = 3000 }))
new-IsMade_example = new-IsMade (record { type = "linear"; period = 3000 }) (omega arith)
