-- ===== src/Push/Loop.antt =====
-- push/worker.go: `Start`, the loop of a worker, as steps. Between two steps other goroutines run.
pub mod Armed
pub mod Sound
pub mod Wiring
use ams_push_server.Base.{
  String, ◌≡◌, Bool, true, false, Option, none, some, Result, Go, returns, panics, go_bind,
}
use ams_push_server.Consumers.{CancelableError}
use ams_push_server.Timer.{Timer, stop_timer, fire, drain}
use ams_push_server.RetryPolicies
use ams_push_server.Push.{Worker, Pushed, push, stop}

-- Where the loop stands: at its select statement; inside a push cycle, at the write to the
-- deactivation channel, which waits for the reader; or past its end.
pub data Phase : Type 0 where
  selecting : Phase
  signalling : CancelableError → Phase
  ended : Phase

pub record Loop (W : Type 0) : Type 0 where
  pub worker : Worker W
  pub phase : Phase

-- `canceled := Timer().Stop()`, and the receive when the timer had already fired. `none` is a
-- receive from an empty channel, which blocks for ever.
unfoldable pub stopped_timer : Timer → Option Timer
stopped_timer t =
    let (canceled, t') = stop_timer t in
    elim canceled [
      | true ↦ some t'
      | false ↦ elim t'.pending [ true ↦ some (drain t') | false ↦ none ]
    ]

module _ {W : Type 0} where
  abbrev pub timer_of : Loop W → Timer
  timer_of l = RetryPolicies.timer l.worker.retry_policy

  abbrev pub with_timer : Timer → Worker W → Worker W
  with_timer t w = record w { retry_policy = RetryPolicies.with_timer t w.retry_policy }

  -- go worker.Start()
  abbrev pub start : Worker W → Loop W
  start w = record { worker = w; phase = selecting }

  -- w.retryPolicy.Reset(w.pushErr), and back to the select statement
  unfoldable pub next_round : Worker W → Loop W
  unfolding RetryPolicies.reset
  next_round w = record {
    worker = record w { retry_policy = RetryPolicies.reset w.retry_policy w.push_err };
    phase = selecting;
  }

  -- The runtime fires the timer.
  unfoldable pub tick : Loop W → Loop W
  tick l = record l { worker = with_timer (fire (timer_of l)) l.worker }

  -- Another goroutine calls `Stop`.
  unfoldable pub cancel : Loop W → Loop W
  unfolding stop
  cancel l = record l { worker = stop l.worker }

  unfoldable pub after_push : Pushed W → Loop W × W
  unfolding next_round
  after_push p = elim p.signal [
    | some ce ↦ (record { worker = p.worker; phase = signalling ce }, p.world)
    | none ↦ (next_round p.worker, p.world)
  ]

  -- The timer's branch of the select statement: its value is received, and a cycle runs.
  unfoldable pub work : (String → Result String String) → String → Loop W → W → Go (Loop W × W)
  unfolding after_push
  work base64_decode now l world =
      go_bind (push base64_decode now (with_timer (drain (timer_of l)) l.worker) world)
        λ p. returns (after_push p)

  -- The reader of the channel has taken the error, and `push` returns.
  unfoldable pub resume : Loop W → Loop W
  unfolding next_round
  resume l = next_round l.worker

  -- The context's branch of the select statement.
  unfoldable pub finish : Loop W → Option (Loop W)
  unfolding stopped_timer
  finish l = elim (stopped_timer (timer_of l)) [
    | none ↦ none
    | some t ↦ some (record { worker = with_timer t l.worker; phase = ended })
  ]

-- A step of the loop's own goroutine, or of its timer, on the loop and the outside.
pub data OwnStep {W : Type 0} (base64_decode : String → Result String String) (l : Loop W)
    (world : W) : Loop W → W → Type 0 where
  ticks : OwnStep base64_decode l world (tick l) world
  works :
      {l' : Loop W} {world' : W} (now : String)
      → l.phase ≡ selecting
      → (timer_of l).pending ≡ true
      → work base64_decode now l world ≡ returns (l', world')
      → OwnStep base64_decode l world l' world'
  finishes :
      {l' : Loop W}
      → l.phase ≡ selecting
      → l.worker.cancelled ≡ true
      → finish l ≡ some l'
      → OwnStep base64_decode l world l' world

-- A step of the loop, or of the goroutines that stop it and that read its channel.
pub data Step {W : Type 0} (base64_decode : String → Result String String) (l : Loop W) (world : W)
    : Loop W → W → Type 0 where
  own :
      {l' : Loop W} {world' : W}
      → OwnStep base64_decode l world l' world'
      → Step base64_decode l world l' world'
  cancels : Step base64_decode l world (cancel l) world
  resumes :
      (ce : CancelableError) → l.phase ≡ signalling ce → Step base64_decode l world (resume l) world
