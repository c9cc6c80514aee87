-- ===== src/Push/Stages/Route.antt =====
-- push/worker.go: what a worker has behind it at each stage of its cycle, while other goroutines send
-- requests over the same network.
use ams_push_server.Base.{String, ◌≡◌, Bool, some, ok, returns}
use ams_push_server.Environment.{Environment, History}
use ams_push_server.Proto
use ams_push_server.Ams.Types.{ReceivedMessage, ReceivedMessagesList, last}
use ams_push_server.Ams.Calls.{IsPulled}
use ams_push_server.Ams.Growth.{Extends, Extends-trans}
use ams_push_server.Consumers.{AmsHttpConsumer, ams_http_consumer}
use ams_push_server.RetryPolicies.{RetryPolicy}
use ams_push_server.Senders.{Sender}
use ams_push_server.Senders.Types.{determine_message_format}
use ams_push_server.Senders.Posting.{IsPosted}
use ams_push_server.Senders.Configured.{IsConfigured, destination_of, is_success_for, body_for}
use ams_push_server.Push.{Worker, push_msgs_of}
use ams_push_server.Push.Stages.{Stage, selecting, fetched, delivered, signalling, ended, Staged}

-- A worker with another context, policy and error.
abbrev pub reset_worker : Worker History → Bool → RetryPolicy → String → Worker History
reset_worker w b p e = record w { cancelled = b; retry_policy = p; push_err = e }

module _ (env : Environment) where
  -- Where the messages of a worker come from and go to: it consumes a subscription of the messaging
  -- service, and its sender, if it is not nil, is one for the subscription's configuration.
  pub record Route (w : Worker History) : Type 0 where
    pub ahc : AmsHttpConsumer
    pub cfg : Proto.PushConfig
    pub consumer_is : w.consumer ≡ ams_http_consumer env ahc
    pub named : ahc.full_sub ≡ w.sub.full_name
    pub config_is : w.sub.push_config ≡ some cfg
    pub delivering : (s : Sender History) → w.sender ≡ some s → IsConfigured env cfg s

  -- The messages were pulled, from a 2xx answer.
  pub record IsFetched (w : Worker History) (r : Route w) (rml : ReceivedMessagesList) (h : History)
      : Type 0 where
    pub before : History
    pub after : History
    pub pulled :
        IsPulled env r.ahc.ams_client.message_service r.ahc.full_sub r.cfg.max_messages before rml
          after
    pub since : Extends after h

  -- The message is the last of a list that was pulled, and later sent to the destination, which
  -- accepted it.
  pub record IsDelivered (w : Worker History) (r : Route w) (rm : ReceivedMessage) (h : History)
      : Type 0 where
    pub rml : ReceivedMessagesList
    pub before : History
    pub fetched_by : IsFetched w r rml before
    pub last_is : last rml ≡ returns rm
    pub body : String
    pub encoded :
        body_for env r.cfg
          (push_msgs_of env.base64_decode w r.cfg rml)
          (determine_message_format r.cfg.max_messages)
        ≡ ok body
    pub after : History
    pub posted : IsPosted env (destination_of r.cfg) body (is_success_for r.cfg) before after
    pub since : Extends after h

  abbrev pub Progress : (w : Worker History) → Route w → Stage → History → Type 0
  Progress w r selecting h = Unit
  Progress w r (fetched rml) h = IsFetched w r rml h
  Progress w r (delivered rm) h = IsDelivered w r rm h
  Progress w r (signalling ce) h = Unit
  Progress w r ended h = Unit

  pub record IsServing (l : Staged History) (h : History) : Type 0 where
    pub route : Route l.worker
    pub progress : Progress l.worker route l.stage h

  Progress-grows :
      (w : Worker History) (r : Route w) (st : Stage) {h h' : History}
      → Extends h h'
      → Progress w r st h
      → Progress w r st h'
  Progress-grows w r selecting e p = tt
  Progress-grows w r (fetched rml) e p = record {
    before = p.before;
    after = p.after;
    pulled = p.pulled;
    since = Extends-trans p.since e;
  }
  Progress-grows w r (delivered rm) e p = record {
    rml = p.rml;
    before = p.before;
    fetched_by = p.fetched_by;
    last_is = p.last_is;
    body = p.body;
    encoded = p.encoded;
    after = p.after;
    posted = p.posted;
    since = Extends-trans p.since e;
  }
  Progress-grows w r (signalling ce) e p = tt
  Progress-grows w r ended e p = tt

  -- The requests of others leave a worker where it is.
  pub IsServing-grows :
      {l : Staged History} {h h' : History} → Extends h h' → IsServing l h → IsServing l h'
  IsServing-grows {l} e s = record {
    route = s.route;
    progress = Progress-grows l.worker s.route l.stage e s.progress;
  }

  abbrev pub rerouted :
      {w : Worker History} (b : Bool) (p : RetryPolicy) (e : String)
      → Route w
      → Route (reset_worker w b p e)
  rerouted b p e r = record {
    ahc = r.ahc;
    cfg = r.cfg;
    consumer_is = r.consumer_is;
    named = r.named;
    config_is = r.config_is;
    delivering = r.delivering;
  }

  Progress-reset :
      {w : Worker History} (b : Bool) (p : RetryPolicy) (e : String) (r : Route w) (st : Stage)
      (h : History)
      → Progress w r st h
      → Progress (reset_worker w b p e) (rerouted b p e r) st h
  unfolding push_msgs_of
  Progress-reset b p e r selecting h x = tt
  Progress-reset b p e r (fetched rml) h x = record {
    before = x.before;
    after = x.after;
    pulled = x.pulled;
    since = x.since;
  }
  Progress-reset b p e r (delivered rm) h x = record {
    rml = x.rml;
    before = x.before;
    fetched_by = record {
      before = x.fetched_by.before;
      after = x.fetched_by.after;
      pulled = x.fetched_by.pulled;
      since = x.fetched_by.since;
    };
    last_is = x.last_is;
    body = x.body;
    encoded = x.encoded;
    after = x.after;
    posted = x.posted;
    since = x.since;
  }
  Progress-reset b p e r (signalling ce) h x = tt
  Progress-reset b p e r ended h x = tt

  -- So does a change of its context, its timer or its error.
  pub IsServing-reset :
      {l : Staged History} {h : History} (b : Bool) (p : RetryPolicy) (e : String)
      → IsServing l h
      → IsServing (record l { worker = reset_worker l.worker b p e }) h
  IsServing-reset {l} {h} b p e s = record {
    route = rerouted b p e s.route;
    progress = Progress-reset b p e s.route l.stage h s.progress;
  }
