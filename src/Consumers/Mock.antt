-- ===== src/Consumers/Mock.antt =====
-- consumers/mock.go: the consumer of the tests, which counts what it generates and acknowledges.
pub mod Laws
use ams_push_server.Base.{
  ℕ, zero, suc, String, ◌++◌, ◌==◌, List, [], ◌∷◌, length, append, Option, none, some, Result, ok,
  err, if◌then◌else◌,
}
use ams_push_server.Base.Int64.{slt}
use ams_push_server.Environment.{Environment, AmsHttpError}
use ams_push_server.Ams.Types.{ReceivedMessage, ReceivedMessagesList}
use ams_push_server.Consumers.{
  CancelableError, new_cancelable_error, project_not_found, subscription_not_found,
}

pub record MockConsumer : Type 0 where
  pub generated_messages : List ReceivedMessage
  pub ack_messages : List String
  pub sub_status : String
  pub ack_status : String
  pub upd_status : String
  pub updated_status_messages : List String

abbrev pub internal_error : String
internal_error =
    "{\n\t\t \"error\": {\n\t\t\t\"code\": 500,\n\t\t\t\"message\": \"Internal error\",\n\t\t\t\"status\": \"INTERNAL_ERROR\"\n\t\t }\n\t\t}"

abbrev pub no_project_error : String
no_project_error =
    "{\n\t\t \"error\": {\n\t\t\t\"code\": 404,\n\t\t\t\"message\": \"project doesn't exist\",\n\t\t\t\"status\": \"NOT_FOUND\"\n\t\t }\n\t\t}"

abbrev pub no_subscription_error : String
no_subscription_error =
    "{\n\t\t \"error\": {\n\t\t\t\"code\": 404,\n\t\t\t\"message\": \"Subscription doesn't exist\",\n\t\t\t\"status\": \"NOT_FOUND\"\n\t\t }\n\t\t}"

-- func (m *MockConsumer) UpdateResourceStatus(...): the error, if any
unfoldable pub update_resource_status : MockConsumer → String → Option String × MockConsumer
update_resource_status m status =
    if m.upd_status == "normal_upd"
    then (
      none,
      record m { updated_status_messages = append m.updated_status_messages (status ∷ []) },
    )
    else if m.upd_status == "error_upd"
    then (some internal_error, m)
    else (none, m)

-- The loop that appends `n` messages to the list and to the generated messages.
generate :
    ℕ
    → ReceivedMessage
    → List ReceivedMessage
    → List ReceivedMessage
    → List ReceivedMessage × List ReceivedMessage
generate zero rm rec_msgs generated = (rec_msgs, generated)
generate (suc n) rm rec_msgs generated =
    generate n rm (append rec_msgs (rm ∷ [])) (append generated (rm ∷ []))

-- How often the loop from 1 to `n` runs, for an int64 `n`.
abbrev pub rounds : ℕ → ℕ
rounds n = if slt n 1 then 0 else n

module _ (env : Environment) where
  cancelable : MockConsumer → Result String AmsHttpError → Option CancelableError
  unfolding new_cancelable_error
  cancelable m (err e) = none
  cancelable m (ok ahe) =
      if ahe.error.message == project_not_found
      then some (new_cancelable_error project_not_found m.sub_status)
      else if ahe.error.message == subscription_not_found
      then some (new_cancelable_error subscription_not_found m.sub_status)
      else none

  -- func (m *MockConsumer) ToCancelableError(error error)
  unfoldable pub to_cancelable_error : MockConsumer → String → Option CancelableError
  unfolding cancelable
  to_cancelable_error m error = cancelable m (env.unmarshal_ams_error error)

  -- The message that is generated; `now` is the formatted time.
  abbrev pub generated_message : String → MockConsumer → ReceivedMessage
  generated_message now m = record {
    ack_id = "ackid_" ++ env.format_int (length m.generated_messages);
    msg = record {
      id = "id_" ++ env.format_int (length m.generated_messages);
      attr = [];
      content = "c29tZSBkYXRh";
      pub_time = now;
    };
  }

  consume_normal : String → MockConsumer → ℕ → Result String ReceivedMessagesList × MockConsumer
  unfolding generate
  consume_normal now m n =
      let (rec_msgs, generated) =
        generate (rounds n) (generated_message now m) [] m.generated_messages in
      (ok (record { rec_msgs = rec_msgs }), record m { generated_messages = generated })

  -- func (m *MockConsumer) Consume(...)
  unfoldable pub consume :
      String → MockConsumer → ℕ → Result String ReceivedMessagesList × MockConsumer
  unfolding consume_normal
  consume now m n =
      if m.sub_status == "normal_sub"
      then consume_normal now m n
      else if m.sub_status == "empty_sub"
      then (ok (record { rec_msgs = [] }), m)
      else if m.sub_status == "error_sub"
      then (err "error while consuming", m)
      else if m.sub_status == "error_sub_no_project"
      then (err no_project_error, m)
      else if m.sub_status == "error_sub_no_sub"
      then (err no_subscription_error, m)
      else (ok (record { rec_msgs = [] }), m)

-- func (m *MockConsumer) Ack(...)
unfoldable pub ack : MockConsumer → String → Option String × MockConsumer
ack m ack_id =
    if m.ack_status == "normal_ack"
    then (none, record m { ack_messages = append m.ack_messages (ack_id ∷ []) })
    else if m.ack_status == "timeout_ack"
    then (some "error while acknowledging", m)
    else (none, m)

-- func (m *MockConsumer) ResourceInfo()
abbrev pub resource_info : String
resource_info = "mock-consumer"
