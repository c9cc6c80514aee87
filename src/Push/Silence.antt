-- ===== src/Push/Silence.antt =====
-- push/worker.go and retrypolicies/slowstart.go: a cycle that finds no new messages.
use ams_push_server.Base.{
  ◌*◌, min, String, ◌≡◌, ◌==◌, refl, false, none, some, Result, err, returns, go_bind, deref, ap,
  ◌∙◌,
}
use ams_push_server.Timer.{drain}
use ams_push_server.RetryPolicies
use ams_push_server.RetryPolicies.{Slowstart, linear, slowstart, slow_start_upper_time_bound}
use ams_push_server.RetryPolicies.Interval.{IsBounded}
use ams_push_server.RetryPolicies.Runs.{reset_error}
use ams_push_server.Proto
use ams_push_server.Consumers.{no_new_messages}
use ams_push_server.Push.{Worker, push, consumed, consume_failed, status}
use ams_push_server.Push.Loop.{Loop, timer_of, with_timer, work, after_push, next_round}

module _ {W : Type 0} (base64_decode : String → Result String String) (now : String) where
  -- What consuming answers a worker when its subscription has no new messages.
  pub record IsQuiet (cfg : Proto.PushConfig) (w : Worker W) (world world' : W) : Type 0 where
    pub configured : w.sub.push_config ≡ some cfg
    pub no_messages : w.consumer.consume cfg.max_messages world ≡ (err no_new_messages, world')
    pub not_cancelable : w.consumer.to_cancelable_error no_new_messages ≡ none

  quiet_failure :
      (w : Worker W) (world : W)
      → w.consumer.to_cancelable_error no_new_messages ≡ none
      → consume_failed base64_decode now w world no_new_messages
        ≡ record { worker = w; world = world; signal = none }
  unfolding consume_failed
  quiet_failure w world e = rw (e, consume_failed)

  -- A cycle that finds no new messages leaves the worker as it was, its registered error included.
  pub push-IsQuiet :
      (cfg : Proto.PushConfig) (w : Worker W) (world world' : W)
      → IsQuiet cfg w world world'
      → push base64_decode now w world
        ≡ returns (record { worker = w; world = world'; signal = none })
  unfolding push consumed
  push-IsQuiet cfg w world world' q =
      ap
        (λ o.
          go_bind (deref o)
            λ c. consumed base64_decode now w c (w.consumer.consume c.max_messages world))
        q.configured
      ∙ ap (consumed base64_decode now w cfg) q.no_messages
      ∙ ap returns (quiet_failure w world' q.not_cancelable)

  -- If an earlier cycle of a worker with a slowstart policy failed and its interval is within its
  -- bounds, then a round that finds no new messages, and hence meets no error, keeps the worker's
  -- error status and sets the interval to the double, up to 24 hours. The answer that there are no
  -- new messages is taken not to be a cancelable error.
  pub quiet_round_doubles :
      (cfg : Proto.PushConfig) (l : Loop W) (s : Slowstart) (world world' : W)
      → l.worker.retry_policy ≡ slowstart s
      → IsBounded s
      → (l.worker.push_err == "") ≡ false
      → IsQuiet cfg l.worker world world'
      → (l' : Loop W) × (work base64_decode now l world ≡ returns (l', world'))
        × (status l'.worker ≡ l.worker.push_err)
        × (s' : Slowstart) × (l'.worker.retry_policy ≡ slowstart s')
        × (s'.previous_restart_interval
            ≡ min slow_start_upper_time_bound (s.previous_restart_interval * 2))
  unfolding work next_round status RetryPolicies.reset
  quiet_round_doubles cfg l s world world' p b e q = (
    next_round drained,
    ap (λ r. go_bind r (λ p. returns (after_push p))) (push-IsQuiet cfg drained world world' quiet),
    rw e refl,
    RetryPolicies.reset_slowstart (record s { timer = drain s.timer }) l.worker.push_err,
    ap
        (λ r.
          RetryPolicies.reset (RetryPolicies.with_timer (drain (RetryPolicies.timer r)) r)
            l.worker.push_err)
        p,
    reset_error (record s { timer = drain s.timer }) l.worker.push_err
        (record { lower = b.lower; upper = b.upper }) e,
  )
    where
      drained : Worker W
      drained = with_timer (drain (timer_of l)) l.worker

      quiet : IsQuiet cfg drained world world'
      quiet = record {
        configured = q.configured;
        no_messages = q.no_messages;
        not_cancelable = q.not_cancelable;
      }
