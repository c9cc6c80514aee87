-- ===== src/Grpc/System/Signals.antt =====
-- api/v1/grpc/server.go: `handleDeactivateChannel`, from the write of a worker to the stopped
-- subscription.
use ams_push_server.Environment.{Environment}
use ams_push_server.Push.Loop.{Loop}
use ams_push_server.Grpc.System.{System}
