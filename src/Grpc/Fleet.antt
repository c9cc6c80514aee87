-- ===== src/Grpc/Fleet.antt =====
-- push/worker.go: the workers of the service, whose push cycles interleave stage by stage over one
-- network, while they are started and stopped.
pub mod Earned
use ams_push_server.Base.{
  ℕ, String, ◌≡◌, eqb, if◌then◌else◌, true, List, ◌∷◌, Option, none, some, Result, ok, Go, returns,
}
use ams_push_server.Environment.{Environment, History, HttpRequest}
use ams_push_server.Proto
use ams_push_server.Ams.{Client}
use ams_push_server.Ams.Types.{ReceivedMessage, ReceivedMessagesList}
use ams_push_server.Consumers.{CancelableError}
use ams_push_server.Timer.{drain}
use ams_push_server.Push.{Worker}
use ams_push_server.Push.Loop.{Loop, tick, cancel, finish, next_round, timer_of, with_timer}
use ams_push_server.Push.Stages.{
  Staged, selecting, fetched, delivered, signalling, staged, at_select, fetch, hand_over, confirm,
}
use ams_push_server.Grpc.{make_worker}

pub record Fleet : Type 0 where
  pub workers : ℕ → Option (Staged History)
  pub world : History

-- The fleet with this worker under a number, and this outside.
abbrev pub put : ℕ → Staged History × History → Fleet → Fleet
put i (l, world) f = record {
  workers = λ j. if eqb i j then some l else f.workers j;
  world = world;
}

-- A worker that changes where it stands, inside a cycle or not.
abbrev pub changed : (Loop History → Loop History) → Staged History → Staged History
changed g l = record l { worker = (g (at_select l.worker)).worker }

abbrev pub received : Worker History → Worker History
received w = with_timer (drain (timer_of (at_select w))) w

-- The steps. Others may send requests at any time, and the workers' contexts may be cancelled at any
-- time.
pub data Step (env : Environment) (f : Fleet) : Fleet → Type 0 where
  starts :
      (i : ℕ) (client : Client) (sub : Proto.Subscription) (cfg : Proto.PushConfig)
      (w : Worker History)
      → f.workers i ≡ none
      → sub.push_config ≡ some cfg
      → make_worker env client sub cfg ≡ returns (ok w)
      → Step env f (put i (record { worker = w; stage = selecting }, f.world) f)
  ticks :
      (i : ℕ) (l : Staged History)
      → f.workers i ≡ some l
      → Step env f (put i (changed tick l, f.world) f)
  stops :
      (i : ℕ) (l : Staged History)
      → f.workers i ≡ some l
      → Step env f (put i (changed cancel l, f.world) f)
  fetches :
      (i : ℕ) (l : Staged History) (now : String) (x : Staged History × History)
      → f.workers i ≡ some l
      → l.stage ≡ selecting
      → (timer_of (at_select l.worker)).pending ≡ true
      → fetch env.base64_decode now (received l.worker) f.world ≡ returns x
      → Step env f (put i x f)
  hands_over :
      (i : ℕ) (l : Staged History) (rml : ReceivedMessagesList) (now : String)
      (x : Staged History × History)
      → f.workers i ≡ some l
      → l.stage ≡ fetched rml
      → hand_over env.base64_decode now rml l.worker f.world ≡ returns x
      → Step env f (put i x f)
  confirms :
      (i : ℕ) (l : Staged History) (rm : ReceivedMessage) (now : String)
      → f.workers i ≡ some l
      → l.stage ≡ delivered rm
      → Step env f (put i (confirm env.base64_decode now rm l.worker f.world) f)
  resumes :
      (i : ℕ) (l : Staged History) (ce : CancelableError)
      → f.workers i ≡ some l
      → l.stage ≡ signalling ce
      → Step env f (put i (staged (next_round l.worker), f.world) f)
  finishes :
      (i : ℕ) (l : Staged History) (e : Loop History)
      → f.workers i ≡ some l
      → l.stage ≡ selecting
      → l.worker.cancelled ≡ true
      → finish (at_select l.worker) ≡ some e
      → Step env f (put i (staged e, f.world) f)
  others : (r : HttpRequest) → Step env f (record f { world = r ∷ f.world })

pub data Reach (env : Environment) (f : Fleet) : Fleet → Type 0 where
  here : Reach env f f
  next : {g g' : Fleet} → Reach env f g → Step env g g' → Reach env f g'

abbrev pub no_workers : History → Fleet
no_workers h = record { workers = λ i. none; world = h }
