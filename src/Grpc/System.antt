-- ===== src/Grpc/System.antt =====
-- api/v1/grpc/server.go and push/worker.go: the whole service while it runs, as steps of its
-- goroutines: the handlers, the loops of the workers, `loadSubscriptions`, which calls a handler or
-- writes the status, and `handleDeactivateChannel`. A handler and a push cycle are one step each.
pub mod Coherence
pub mod Reachable
pub mod Signals
pub mod Stale
pub mod Wired
pub mod Delivery
pub mod Ending
use ams_push_server.Base.{ℕ, String, ◌≡◌, Option, none, some, Result, Go, returns}
use ams_push_server.Environment.{Environment, History}
use ams_push_server.Proto
use ams_push_server.Consumers.{CancelableError}
use ams_push_server.Push.Loop.{Loop, OwnStep, selecting, signalling, resume}
use ams_push_server.Grpc.{
  PushService, GrpcError, update, activate_subscription, deactivate_subscription, stop_subscription,
}

-- The service, the outside, and the error that `handleDeactivateChannel` has taken and not yet
-- acted on.
pub record System : Type 0 where
  pub service : PushService
  pub world : History
  pub handling : Option CancelableError

-- Loop `i` is replaced by its state after a step, and the outside by the one after it.
abbrev pub with_loop : ℕ → Loop History → System → System
with_loop i l s = record s { service = record s.service { loops = update i l s.service.loops } }

-- cancelErr, ok := <-ps.deactivateChan: loop `i` goes on.
abbrev pub receive : ℕ → Loop History → CancelableError → System → System
receive i l ce s = record (with_loop i (resume l) s) { handling = some ce }

pub data Step (env : Environment) (s : System) : System → Type 0 where
  activates :
      {reply : Result GrpcError String} {ps : PushService} (r : Proto.ActivateSubscriptionRequest)
      → activate_subscription env s.service r ≡ returns (reply, ps)
      → Step env s (record s { service = ps })
  deactivates :
      {reply : Result GrpcError String} {ps : PushService} (r : Proto.DeactivateSubscriptionRequest)
      → deactivate_subscription s.service r ≡ returns (reply, ps)
      → Step env s (record s { service = ps })
  -- `loadSubscriptions` writes the status, here any text.
  loads : (text : String) → Step env s (record s { service = record s.service { status = text } })
  runs :
      (i : ℕ) (l : Loop History) {l' : Loop History} {world' : History}
      → s.service.loops i ≡ some l
      → OwnStep env.base64_decode l s.world l' world'
      → Step env s (record (with_loop i l' s) { world = world' })
  receives :
      (i : ℕ) (l : Loop History) (ce : CancelableError)
      → s.handling ≡ none
      → s.service.loops i ≡ some l
      → l.phase ≡ signalling ce
      → Step env s (receive i l ce s)
  handles :
      {error : Option String} {ps : PushService} (ce : CancelableError)
      → s.handling ≡ some ce
      → stop_subscription s.service ce.resource ≡ returns (error, ps)
      → Step env s (record s { service = ps; handling = none })

-- What the system may come to.
pub data Reach (env : Environment) (s : System) : System → Type 0 where
  here : Reach env s s
  next : {t u : System} → Reach env s t → Step env t u → Reach env s u
