-- ===== src/Grpc.antt =====
-- api/v1/grpc/server.go: the push service and its handlers. A worker is a pointer: the service maps a
-- subscription's name to the number of a loop, and the started loops stand in the field `loops`. Each
-- handler is one function here; the code has no locks, and handlers that overlap are in Overlap.
pub mod Activation
pub mod Handlers
pub mod Accepted
pub mod Stopping
pub mod Load
pub mod Interceptors
pub mod System
pub mod UnknownType
pub mod RoundTrip
pub mod Server
pub mod Overlap
pub mod Registry
pub mod Fleet
use ams_push_server.Base.{
  ℕ, suc, String, ◌++◌, ◌==◌, Bool, true, false, not, List, [], ◌∷◌, Option, none, some, Result, ok,
  err, Go, returns, panics, go_bind, deref, Dict, empty, assign, delete, eqb, if◌then◌else◌,
}
use ams_push_server.Environment.{Environment, History}
use ams_push_server.Proto
use ams_push_server.Config.{Config}
use ams_push_server.Ams
use ams_push_server.Ams.{Client}
use ams_push_server.Consumers
use ams_push_server.Consumers.{ams_http_consumer_type}
use ams_push_server.Senders
use ams_push_server.Push
use ams_push_server.Push.{Worker}
use ams_push_server.Push.Loop.{Loop, start, cancel}

abbrev pub service_unavailable : String
service_unavailable = "The push service is currently unable to handle any requests"

pub data Code : Type 0 where
  internal not_found invalid_argument already_exists unauthenticated : Code

pub record GrpcError : Type 0 where
  pub code : Code
  pub message : String

pub record PushService : Type 0 where
  pub cfg : Config
  pub ams_client : Client
  pub push_workers : Dict ℕ
  pub status : String
  -- the workers that were started, and how many
  pub loops : ℕ → Option (Loop History)
  pub started : ℕ

-- *w = l, for the worker number `i`
abbrev pub update : ℕ → Loop History → (ℕ → Option (Loop History)) → ℕ → Option (Loop History)
update i l loops j = if eqb i j then some l else loops j

-- func NewPushService(cfg *config.Config), before its goroutines run
unfoldable pub new_push_service : Environment → Config → PushService
unfolding Ams.new_client
new_push_service env cfg = record {
  cfg = cfg;
  ams_client = Ams.new_client env "https" cfg.ams_host cfg.ams_token cfg.ams_port;
  push_workers = empty;
  status = "";
  loops = λ i. none;
  started = 0;
}

-- func (ps *PushService) IsSubActive(name string)
unfoldable pub is_sub_active : PushService → String → Bool
is_sub_active ps name = elim (ps.push_workers name) [ none ↦ false | some i ↦ true ]

-- func (ps *PushService) Status(...): the response has no fields
unfoldable pub status : PushService → Result GrpcError (Unit {0})
status ps =
    if not (ps.status == "ok")
    then err (record { code = internal; message = (service_unavailable ++ ".") ++ ps.status })
    else ok tt

-- The worker that the map holds for a name: a missing one would be a nil interface.
pub worker_of : PushService → String → Go (ℕ × Loop History)
worker_of ps name =
    go_bind (deref (ps.push_workers name)) λ i. go_bind (deref (ps.loops i)) λ l. returns (i, l)

not_active : String → String
not_active name = ("Subscription " ++ name) ++ " is not active"

-- func (ps *PushService) SubscriptionStatus(...)
unfoldable pub subscription_status :
    PushService → Proto.SubscriptionStatusRequest → Go (Result GrpcError String)
unfolding is_sub_active worker_of not_active
subscription_status ps r =
    if not (is_sub_active ps r.full_name)
    then returns (err (record { code = not_found; message = not_active r.full_name }))
    else go_bind (worker_of ps r.full_name) λ (i, l). returns (ok (Push.status l.worker))

-- w.Stop() and delete(ps.PushWorkers, sub)
unfoldable pub remove_worker : PushService → String → ℕ × Loop History → PushService
unfolding cancel
remove_worker ps sub (i, l) = record ps {
  push_workers = delete sub ps.push_workers;
  loops = update i (cancel l) ps.loops;
}

-- func (ps *PushService) deactivateSubscription(sub string): the error, if any
unfoldable pub stop_subscription : PushService → String → Go (Option String × PushService)
unfolding is_sub_active worker_of not_active remove_worker
stop_subscription ps sub =
    if not (is_sub_active ps sub)
    then returns (some (not_active sub), ps)
    else go_bind (worker_of ps sub) λ found. returns (none, remove_worker ps sub found)

deactivated : String → Option String × PushService → Result GrpcError String × PushService
deactivated name (some e, ps) = (err (record { code = not_found; message = e }), ps)
deactivated name (none, ps) = (ok (("Subscription " ++ name) ++ " deactivated"), ps)

-- func (ps *PushService) DeactivateSubscription(...)
unfoldable pub deactivate_subscription :
    PushService → Proto.DeactivateSubscriptionRequest → Go (Result GrpcError String × PushService)
unfolding stop_subscription deactivated
deactivate_subscription ps r =
    go_bind (stop_subscription ps r.full_name) λ x. returns (deactivated r.full_name x)

-- ps.PushWorkers[name] = worker; go worker.Start()
unfoldable pub add_worker : PushService → String → Worker History → PushService
add_worker ps name w = record ps {
  push_workers = assign name ps.started ps.push_workers;
  loops = update ps.started (start w) ps.loops;
  started = suc ps.started;
}

installed :
    PushService → String → Result String (Worker History) → Result GrpcError String × PushService
unfolding add_worker
installed ps name (err e) =
    (err (record { code = invalid_argument; message = "Invalid argument, " ++ e }), ps)
installed ps name (ok w) = (ok (("Subscription " ++ name) ++ " activated"), add_worker ps name w)

module _ (env : Environment) where
  -- The test on the endpoint, for the type HTTP_ENDPOINT only: its error, if any.
  unfoldable pub endpoint_error : Proto.PushConfig → Option String
  endpoint_error cfg =
      if eqb cfg.type Proto.http_endpoint
      then env.parse_request_uri_error cfg.push_endpoint
      else none

  -- The consumer, the sender and the worker. The errors of the first two are dropped; the type of
  -- the consumer is a constant, so it is never nil.
  unfoldable pub make_worker :
      Client → Proto.Subscription → Proto.PushConfig → Go (Result String (Worker History))
  unfolding Consumers.new Senders.new Push.new
  make_worker client sub cfg =
      go_bind (deref (Consumers.new env ams_http_consumer_type sub.full_name client))
        λ c. Push.new sub c (Senders.new env cfg)

  -- After the test for nil fields.
  activate_complete :
      PushService
      → Proto.Subscription
      → Proto.PushConfig
      → Go (Result GrpcError String × PushService)
  unfolding is_sub_active endpoint_error make_worker installed
  activate_complete ps sub cfg =
      if is_sub_active ps sub.full_name
      then returns (
        err (record {
          code = already_exists;
          message = ("Subscription " ++ sub.full_name) ++ " is already activated";
        }),
        ps,
      )
      else elim (endpoint_error cfg) [
        | some e ↦
            returns (
              err (record { code = invalid_argument; message = "Invalid push endpoint, " ++ e }),
              ps,
            )
        | none ↦
            go_bind (make_worker ps.ams_client sub cfg) λ w. returns (installed ps sub.full_name w)
      ]

  empty_subscription : PushService → Go (Result GrpcError String × PushService)
  empty_subscription ps =
      returns (err (record { code = invalid_argument; message = "Empty subscription" }), ps)

  -- func (ps *PushService) ActivateSubscription(...)
  unfoldable pub activate_subscription :
      PushService → Proto.ActivateSubscriptionRequest → Go (Result GrpcError String × PushService)
  unfolding empty_subscription activate_complete
  activate_subscription ps r = elim r.subscription [
    | none ↦ empty_subscription ps
    | some sub ↦ elim sub.push_config [
      | none ↦ empty_subscription ps
      | some cfg ↦ elim cfg.retry_policy [
        | none ↦ empty_subscription ps
        | some rp ↦ activate_complete ps sub cfg
      ]
    ]
  ]
