-- ===== src/Timer.antt =====
-- Go's `time.Timer`, as the language of go.mod (1.21) documents it: a channel with room for one
-- value, filled when the timer fires. A stop or a reset leaves the channel as it is.
use ams_push_server.Base.{ℕ, Bool, true, false, Option, none, some}

pub record Timer : Type 0 where
  -- the duration that was set, while the timer runs
  pub active : Option ℕ
  -- whether a value waits in the channel
  pub pending : Bool

-- time.NewTimer(d)
abbrev pub new_timer : ℕ → Timer
new_timer d = record { active = some d; pending = false }

-- t.Reset(d)
abbrev pub reset_timer : ℕ → Timer → Timer
reset_timer d t = record t { active = some d }

-- t.Stop(): whether it stopped a running timer
abbrev pub stop_timer : Timer → Bool × Timer
stop_timer t = elim t.active [ none ↦ (false, t) | some d ↦ (true, record t { active = none }) ]

-- The clock: a running timer puts a value into its channel.
abbrev pub fire : Timer → Timer
fire t = elim t.active [ none ↦ t | some d ↦ record { active = none; pending = true } ]

-- <-t.C, when a value waits
abbrev pub drain : Timer → Timer
drain t = record t { pending = false }
