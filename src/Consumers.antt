-- ===== src/Consumers.antt =====
-- consumers/consumer.go and amshttpconsumer.go.
pub mod Laws
pub mod Mock
use ams_push_server.Base.{
  ℕ, String, ◌++◌, ◌==◌, Bool, true, false, Option, none, some, Result, ok, err, if◌then◌else◌, [],
}
use ams_push_server.Environment.{Environment, History, AmsHttpError}
use ams_push_server.Ams
use ams_push_server.Ams.{Client}
use ams_push_server.Ams.Types.{ReceivedMessagesList, is_empty}

pub record CancelableError : Type 0 where
  pub err_msg : String
  pub resource : String

-- func NewCancelableError(errMSg string, resource string)
unfoldable pub new_cancelable_error : String → String → CancelableError
new_cancelable_error err_msg resource = record { err_msg = err_msg; resource = resource }

-- The interface, over the state `W` that consuming changes. `ack` returns the error, if any.
pub record Consumer (W : Type 0) : Type 0 where
  pub consume : ℕ → W → Result String ReceivedMessagesList × W
  pub ack : String → W → Option String × W
  pub resource_info : String
  pub to_cancelable_error : String → Option CancelableError

abbrev pub project_not_found : String
project_not_found = "project doesn't exist"

abbrev pub subscription_not_found : String
subscription_not_found = "Subscription doesn't exist"

abbrev pub no_new_messages : String
no_new_messages = "no new messages"

pub record AmsHttpConsumer : Type 0 where
  pub full_sub : String
  pub ams_client : Client

-- func NewAmsHttpConsumer(fullSub string, amsClient *ams.Client)
unfoldable pub new_ams_http_consumer : String → Client → AmsHttpConsumer
new_ams_http_consumer full_sub ams_client = record { full_sub = full_sub; ams_client = ams_client }

module _ (env : Environment) (ahc : AmsHttpConsumer) where
  cancelable : Result String AmsHttpError → Option CancelableError
  unfolding new_cancelable_error
  cancelable (err e) = none
  cancelable (ok ahe) =
      if ahe.error.message == project_not_found
      then some (new_cancelable_error project_not_found ahc.full_sub)
      else if ahe.error.message == subscription_not_found
      then some (new_cancelable_error subscription_not_found ahc.full_sub)
      else none

  -- func (ahc *AmsHttpConsumer) ToCancelableError(error error)
  unfoldable pub to_cancelable_error : String → Option CancelableError
  unfolding cancelable
  to_cancelable_error error = cancelable (env.unmarshal_ams_error error)

  -- func (ahc *AmsHttpConsumer) ResourceInfo()
  unfoldable pub resource_info : String
  unfolding Ams.host
  resource_info = (("subscription " ++ ahc.full_sub) ++ " from ") ++ Ams.host ahc.ams_client

  refuse_empty : Result String ReceivedMessagesList → Result String ReceivedMessagesList
  unfolding is_empty
  refuse_empty (err e) = err e
  refuse_empty (ok l) = if is_empty l then err no_new_messages else ok l

  -- func (ahc *AmsHttpConsumer) Consume(ctx context.Context, numberOfMessages int64)
  unfoldable pub consume : ℕ → History → Result String ReceivedMessagesList × History
  unfolding refuse_empty Ams.pull
  consume number_of_messages h =
      let (reply, h') =
        Ams.pull env ahc.ams_client.message_service ahc.full_sub number_of_messages true h in
      (refuse_empty reply, h')

  ack_error : String → Option String → Option String
  unfolding resource_info
  ack_error ack_id none = none
  ack_error ack_id (some e) = some (
      ((((("an error occurred while trying to acknowledge message with ackId " ++ ack_id)
              ++ " from ")
            ++ resource_info)
          ++ ", ")
        ++ e))

  -- func (ahc *AmsHttpConsumer) Ack(ctx context.Context, ackId string)
  unfoldable pub ack : String → History → Option String × History
  unfolding ack_error Ams.ack
  ack ack_id h =
      let (error, h') = Ams.ack env ahc.ams_client.message_service ahc.full_sub ack_id h in
      (ack_error ack_id error, h')

  abbrev pub ams_http_consumer : Consumer History
  ams_http_consumer = record {
    consume = consume;
    ack = ack;
    resource_info = resource_info;
    to_cancelable_error = to_cancelable_error;
  }

abbrev pub ams_http_consumer_type : String
ams_http_consumer_type = "ams-http-consumer"

-- func New(cType consumerType, fullSub string, amsClient *ams.Client): `none` is the nil that
-- comes with the error
unfoldable pub new : Environment → String → String → Client → Option (Consumer History)
unfolding new_ams_http_consumer
new env c_type full_sub ams_client =
    if c_type == ams_http_consumer_type
    then some (ams_http_consumer env (new_ams_http_consumer full_sub ams_client))
    else none
