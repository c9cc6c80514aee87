-- ===== src/Grpc/Overlap.antt =====
-- api/v1/grpc/server.go: handlers that run at once. The test of `ActivateSubscription` and its write
-- to the map are two steps here, and so are the test of `deactivateSubscription`, or that of
-- `SubscriptionStatus`, and what follows it. A call that fails its test changes nothing and has no step,
-- but for `handleDeactivateChannel`, which has then taken an error.
pub mod Admitted
pub mod Threads
pub mod Orderly
pub mod Race
use ams_push_server.Base.{
  ℕ, String, ◌++◌, ◌≡◌, ◌⊎◌, Bool, true, false, Option, none, some, Result, ok, err, Go, returns,
  panics, go_bind, eqb, if◌then◌else◌,
}
use ams_push_server.Environment.{Environment, History}
use ams_push_server.Proto
use ams_push_server.Push.{Worker}
use ams_push_server.Consumers.{CancelableError}
use ams_push_server.Push.Loop.{Loop, OwnStep, signalling, resume}
use ams_push_server.Grpc.{
  PushService, GrpcError, invalid_argument, already_exists, update, is_sub_active, worker_of,
  remove_worker, add_worker, endpoint_error, make_worker,
}

-- The key of the map and the local variable `worker`, when the handler comes to the write.
abbrev pub Admitted : Type 0
Admitted = String × Worker History

refused_for : String → Result String (Worker History) → Result GrpcError Admitted
refused_for name (err e) =
    err (record { code = invalid_argument; message = "Invalid argument, " ++ e })
refused_for name (ok w) = ok (name, w)

module _ (env : Environment) where
  admit_complete :
      PushService → Proto.Subscription → Proto.PushConfig → Go (Result GrpcError Admitted)
  unfolding is_sub_active endpoint_error make_worker refused_for
  admit_complete ps sub cfg =
      if is_sub_active ps sub.full_name
      then returns (
          err (record {
            code = already_exists;
            message = ("Subscription " ++ sub.full_name) ++ " is already activated";
          }))
      else elim (endpoint_error env cfg) [
        | some e ↦
            returns
              (err (record { code = invalid_argument; message = "Invalid push endpoint, " ++ e }))
        | none ↦
            go_bind (make_worker env ps.ams_client sub cfg)
              λ w. returns (refused_for sub.full_name w)
      ]

  admit_empty : Go (Result GrpcError Admitted)
  admit_empty = returns (err (record { code = invalid_argument; message = "Empty subscription" }))

  -- `ActivateSubscription` up to its write to the map: its error, or what it will write.
  unfoldable pub admit :
      PushService → Proto.ActivateSubscriptionRequest → Go (Result GrpcError Admitted)
  unfolding admit_complete admit_empty
  admit ps r = elim r.subscription [
    | none ↦ admit_empty
    | some sub ↦ elim sub.push_config [
      | none ↦ admit_empty
      | some cfg ↦ elim cfg.retry_policy [
        | none ↦ admit_empty
        | some rp ↦ admit_complete ps sub cfg
      ]
    ]
  ]

-- The write to the map, and the reply.
unfoldable pub commit :
    PushService → Result GrpcError Admitted → Result GrpcError String × PushService
unfolding add_worker
commit ps (err e) = (err e, ps)
commit ps (ok (name, w)) = (ok (("Subscription " ++ name) ++ " activated"), add_worker ps name w)

-- A goroutine that serves a call, or is `handleDeactivateChannel`: it is between two calls, or has
-- passed the test of `ActivateSubscription`, of `deactivateSubscription` or of `SubscriptionStatus`; or
-- it has taken an error from the channel, and is yet to call `deactivateSubscription`.
pub data Thread : Type 0 where
  idle : Thread
  adding : String → Worker History → Thread
  removing : String → Thread
  reading : String → Thread
  taken : String → Thread

-- The subscription that a goroutine is about to change or to read.
abbrev pub concerns : Thread → Option String
concerns idle = none
concerns (adding name w) = some name
concerns (removing name) = some name
concerns (reading name) = some name
concerns (taken name) = none

pub record System : Type 0 where
  pub service : PushService
  pub world : History
  pub threads : ℕ → Thread

abbrev pub set_thread : ℕ → Thread → (ℕ → Thread) → ℕ → Thread
set_thread i t threads j = if eqb i j then t else threads j

-- Goroutine `i` goes on as `t`, and leaves the service `ps`.
abbrev pub after : System → ℕ → Thread → PushService → System
after s i t ps = record s { service = ps; threads = set_thread i t s.threads }

-- The steps. A handler begins only where `may` permits it to work on its subscription.
pub data Step (may : System → String → Type 0) (env : Environment) (s : System)
    : System → Type 0 where
  admits :
      {w : Worker History} (i : ℕ) (name : String) (r : Proto.ActivateSubscriptionRequest)
      → s.threads i ≡ idle
      → may s name
      → admit env s.service r ≡ returns (ok (name, w))
      → Step may env s (after s i (adding name w) s.service)
  commits :
      (i : ℕ) (name : String) (w : Worker History)
      → s.threads i ≡ adding name w
      → Step may env s (after s i idle (commit s.service (ok (name, w))).1)
  checks :
      (i : ℕ) (name : String)
      → s.threads i ≡ idle
      → may s name
      → is_sub_active s.service name ≡ true
      → Step may env s (after s i (removing name) s.service)
  removes :
      {found : ℕ × Loop History} (i : ℕ) (name : String)
      → s.threads i ≡ removing name
      → worker_of s.service name ≡ returns found
      → Step may env s (after s i idle (remove_worker s.service name found))
  asks :
      (i : ℕ) (name : String)
      → s.threads i ≡ idle
      → may s name
      → is_sub_active s.service name ≡ true
      → Step may env s (after s i (reading name) s.service)
  replies :
      {found : ℕ × Loop History} (i : ℕ) (name : String)
      → s.threads i ≡ reading name
      → worker_of s.service name ≡ returns found
      → Step may env s (after s i idle s.service)
  -- Any goroutine may take an error here, and in the code only `handleDeactivateChannel` does.
  receives :
      (i k : ℕ) (l : Loop History) (ce : CancelableError)
      → s.threads i ≡ idle
      → s.service.loops k ≡ some l
      → l.phase ≡ signalling ce
      → Step may env s (
          after s i
            (taken ce.resource)
            (record s.service { loops = update k (resume l) s.service.loops }))
  begins :
      (i : ℕ) (name : String)
      → s.threads i ≡ taken name
      → may s name
      → is_sub_active s.service name ≡ true
      → Step may env s (after s i (removing name) s.service)
  drops :
      (i : ℕ) (name : String)
      → s.threads i ≡ taken name
      → is_sub_active s.service name ≡ false
      → Step may env s (after s i idle s.service)
  runs :
      (k : ℕ) (l : Loop History) {l' : Loop History} {world' : History}
      → s.service.loops k ≡ some l
      → OwnStep env.base64_decode l s.world l' world'
      → Step may env s (record s {
        service = record s.service { loops = update k l' s.service.loops };
        world = world';
      })

pub data Reach (may : System → String → Type 0) (env : Environment) (s : System)
    : System → Type 0 where
  here : Reach may env s s
  next : {t u : System} → Reach may env s t → Step may env t u → Reach may env s u

-- The next statement of the goroutine reads a worker that the map no longer holds.
abbrev pub Panics : System → ℕ → Type 0
Panics s i =
    (name : String) × ((s.threads i ≡ removing name) ⊎ (s.threads i ≡ reading name))
    × (worker_of s.service name ≡ panics)
