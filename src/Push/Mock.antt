-- ===== src/Push/Mock.antt =====
-- push/mock.go, and the mock consumer and sender as the two sides of a worker, as push/worker_test.go
-- sets them up.
pub mod Cycle
pub mod Empty
use ams_push_server.Base.{[], String, Option, some, Result, Go, returns, go_bind, none}
use ams_push_server.Environment.{Environment}
use ams_push_server.Proto
use ams_push_server.Consumers.{Consumer}
use ams_push_server.Consumers.Mock as ConsumerMock
use ams_push_server.Consumers.Mock.{MockConsumer}
use ams_push_server.Senders.{Sender}
use ams_push_server.Senders.Mock as SenderMock
use ams_push_server.Senders.Mock.{MockSender}
use ams_push_server.Push.{Worker}

pub record MockWorker : Type 0 where
  pub sub : Proto.Subscription
  pub sub_status : String
  pub status : String

-- func (w *MockWorker) Status()
unfoldable pub mock_status : MockWorker → String
mock_status w = w.sub_status

-- func (w *MockWorker) Consumer()
unfoldable pub mock_worker_consumer : MockWorker → MockConsumer
mock_worker_consumer w = record {
  generated_messages = [];
  ack_messages = [];
  sub_status = "";
  ack_status = "";
  upd_status = "";
  updated_status_messages = [];
}

-- func (w *MockWorker) Subscription()
unfoldable pub mock_worker_subscription : MockWorker → Proto.Subscription
mock_worker_subscription w = record { full_name = ""; full_topic = ""; push_config = none }

-- func (w *MockWorker) Start()
unfoldable pub mock_start : MockWorker → MockWorker
mock_start w = w

-- func (w *MockWorker) Stop()
unfoldable pub mock_stop : MockWorker → MockWorker
mock_stop w = record w { status = "stopped"; sub_status = "stopped" }

-- What the mocks keep.
pub record MockWorld : Type 0 where
  pub consumer : MockConsumer
  pub sender : MockSender

-- The consumer, as an instance of the interface: no method changes its statuses, which are those of
-- `m`; `now` is the formatted time.
abbrev pub mock_consumer : Environment → String → MockConsumer → Consumer MockWorld
mock_consumer env now m = record {
  consume = λ n world.
      let (reply, c) = ConsumerMock.consume env now world.consumer n in
      (reply, record world { consumer = c });
  ack = λ ack_id world.
      let (error, c) = ConsumerMock.ack world.consumer ack_id in
      (error, record world { consumer = c });
  resource_info = ConsumerMock.resource_info;
  to_cancelable_error = ConsumerMock.to_cancelable_error env m;
}

abbrev with_sender : MockWorld → Option String × MockSender → Go (Option String × MockWorld)
with_sender world (error, s) = returns (error, record world { sender = s })

abbrev pub mock_sender : Sender MockWorld
mock_sender = record {
  send =
      λ msgs format world. go_bind (SenderMock.send world.sender msgs format) (with_sender world);
  destination = SenderMock.destination;
}

-- A worker between the mocks; the other fields are those of `w`.
abbrev pub mock_worker :
    Environment → String → MockConsumer → Proto.PushConfig → Worker MockWorld → Worker MockWorld
mock_worker env now m cfg w = record w {
  consumer = mock_consumer env now m;
  sender = some mock_sender;
  sub = record w.sub { push_config = some cfg };
}
