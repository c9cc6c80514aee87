-- ===== src/Grpc/System/Stale.antt =====
-- api/v1/grpc/server.go: the error of a stopped worker, taken after its subscription was activated anew.
use ams_push_server.Base.{ℕ, ◌≡◌, true, none, some}
use ams_push_server.Environment.{Environment, History}
use ams_push_server.Proto
use ams_push_server.Consumers.{CancelableError}
use ams_push_server.Push.{Worker}
use ams_push_server.Push.Loop.{Loop, signalling, start, cancel}
use ams_push_server.Grpc.{PushService, add_worker, remove_worker}
use ams_push_server.Grpc.System.{System, receive}
use ams_push_server.Grpc.System.Coherence.{IsCoherent}

-- Worker number `n` was stopped although no error was registered for it.
abbrev pub IsStoppedFresh : PushService → ℕ → Type 0
IsStoppedFresh ps n =
    (k : Loop History) × (ps.loops n ≡ some k)
    × (k.worker.cancelled ≡ true)
    × (k.worker.push_err ≡ "")

module _ (env : Environment) (s : System) (i : ℕ) (l : Loop History) (ce : CancelableError)
    (c : IsCoherent s.service) (idle : s.handling ≡ none) (at : s.service.loops i ≡ some l)
    (waits : l.phase ≡ signalling ce) (held : s.service.push_workers ce.resource ≡ some i) where
  -- The service after the old worker was removed, and with a new one.
  abbrev pub without : PushService
  without = remove_worker s.service ce.resource (i, l)

  abbrev renewed : Worker History → PushService
  renewed w = add_worker without ce.resource w

  abbrev taken : Worker History → System
  taken w = receive i (cancel l) ce (record s { service = renewed w })

  -- The service in the end.
  abbrev stopped : Worker History → PushService
  stopped w = remove_worker (taken w).service ce.resource (s.service.started, start w)
