-- ===== src/Grpc/System/Delivery.antt =====
-- api/v1/grpc/server.go, push/worker.go, consumers/amshttpconsumer.go and senders/httpsender.go: from
-- an accepted request to the messages at the endpoint.
use ams_push_server.Base.{ℕ, String, ◌++◌, ◌≡◌, refl, ap, ◌∙◌, some, ok, returns, eqb_refl}
use ams_push_server.Environment.{Environment, History}
use ams_push_server.Proto
use ams_push_server.Consumers.{AmsHttpConsumer, ams_http_consumer}
use ams_push_server.Ams.Types.{ReceivedMessagesList}
use ams_push_server.Senders
use ams_push_server.Senders.{HttpSender, http_sender}
use ams_push_server.Push
use ams_push_server.Push.{Worker}
use ams_push_server.Push.Healthy.{IsHealthy, IsHandedOver, work-IsHandedOver}
use ams_push_server.Push.Loop.{Loop, selecting, timer_of, tick, ticks, works}
use ams_push_server.Push.Loop.Sound.{tick-pending}
use ams_push_server.Push.Loop.Armed.{IsArmed}
use ams_push_server.Grpc.{subscription_status}
use ams_push_server.Grpc.Stopping.{status-known}
use ams_push_server.Grpc.System.{System, with_loop, runs, Reach, here, next}
use ams_push_server.Config.{Config}

abbrev pub sender_of : Proto.PushConfig → HttpSender
sender_of cfg = record { endpoint = cfg.push_endpoint; auth_z_header = cfg.authorization_header }

module _ (env : Environment) (ahc : AmsHttpConsumer) (cfg : Proto.PushConfig) where
  -- A worker that takes messages from the messaging service to an http endpoint.
  pub record Carries (w : Worker History) : Type 0 where
    pub consumer_is : w.consumer ≡ ams_http_consumer env ahc
    pub config_is : w.sub.push_config ≡ some cfg
    pub sender_is : w.sender ≡ some (http_sender env (sender_of cfg))

  -- In the system `t` the name has a worker and is reported as active, and since the history `h`
  -- messages were handed over as that worker does.
  pub record HasHandedOver (name : String) (h : History) (t : System) : Type 0 where
    pub number : ℕ
    pub loop : Loop History
    pub held : t.service.push_workers name ≡ some number
    pub at : t.service.loops number ≡ some loop
    pub reports :
        subscription_status t.service (record { full_name = name })
        ≡ returns (ok (("Subscription " ++ name) ++ " is currently active"))
    pub messages : ReceivedMessagesList
    pub handed_over : IsHandedOver env ahc cfg (sender_of cfg) loop.worker messages h t.world

  -- A loop that waits for its timer may next run a cycle that hands over the messages.
  pub next_cycle :
      (s : System) (i : ℕ) (l : Loop History) (name : String)
      → s.service.push_workers name ≡ some i
      → s.service.loops i ≡ some l
      → l.phase ≡ selecting
      → IsArmed (timer_of l)
      → Carries l.worker
      → l.worker.sub.full_name ≡ name
      → IsHealthy env ahc cfg.max_messages cfg.push_endpoint s.world
      → (t : System) × Reach env s t × HasHandedOver name s.world t
  unfolding tick Push.status
  next_cycle s i l name held at selects armed c named healthy =
      let (k, h3, e, same, fine, d) =
        work-IsHandedOver env ahc cfg (sender_of cfg) s.world healthy "" (tick l) c.consumer_is
          c.config_is c.sender_is in
      let there : (x y : Loop History)
          → (with_loop i y (with_loop i x s)).service.loops i ≡ some y =
        λ x y. rw (eqb_refl i) refl in
      let t = record (with_loop i k (with_loop i (tick l) s)) { world = h3 } in
      (
        t,
        next (next here (runs i l at ticks))
            (runs i (tick l) (rw (eqb_refl i) refl) (works "" selects (tick-pending l armed) e)),
        record {
          number = i;
          loop = k;
          held = held;
          at = there (tick l) k;
          reports =
              status-known t.service name held (there (tick l) k)
              ∙ ap (λ x. returns (ok x)) (rw (fine, same, named) refl);
          messages = healthy.messages;
          handed_over = d;
        },
      )

abbrev pub consumer_for : System → String → AmsHttpConsumer
consumer_for s name = record { full_sub = name; ams_client = s.service.ams_client }
