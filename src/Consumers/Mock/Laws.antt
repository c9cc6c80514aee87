-- ===== src/Consumers/Mock/Laws.antt =====
-- consumers/mock.go: what the mock consumer generates and acknowledges when its statuses are normal.
use ams_push_server.Base.Int64.{slt-exact, sign_bit}
use ams_push_server.Base.{
  ◌<◌, arith, ℕ, zero, suc, String, ◌≡◌, refl, ◌∙◌, List, [], ◌∷◌, append, append-nil, append_assoc,
  replicate, none, ok,
}
use ams_push_server.Environment.{Environment}
use ams_push_server.Ams.Types.{ReceivedMessage}
use ams_push_server.Consumers.Mock.{
  MockConsumer, generate, generated_message, rounds, consume_normal, consume, ack,
}

generate-replicate :
    (n : ℕ) (rm : ReceivedMessage) (xs ys : List ReceivedMessage)
    → generate n rm xs ys ≡ (append xs (replicate n rm), append ys (replicate n rm))
unfolding generate
generate-replicate zero rm xs ys = rw (append-nil xs, append-nil ys) refl
generate-replicate (suc n) rm xs ys =
    generate-replicate n rm (append xs (rm ∷ [])) (append ys (rm ∷ []))
    ∙ rw (append_assoc xs (rm ∷ []) (replicate n rm), append_assoc ys (rm ∷ []) (replicate n rm))
        refl

-- A normal subscription gives as many copies of one message as were asked for, and keeps them.
pub consume-normal :
    (env : Environment) (now : String) (m : MockConsumer) (n : ℕ)
    → m.sub_status ≡ "normal_sub"
    → consume env now m n ≡ (
      ok (record { rec_msgs = replicate (rounds n) (generated_message env now m) }),
      record m {
        generated_messages =
            append m.generated_messages (replicate (rounds n) (generated_message env now m));
      },
    )
unfolding consume consume_normal
consume-normal env now m n e =
    rw (e, generate-replicate (rounds n) (generated_message env now m) [] m.generated_messages) refl

pub ack-normal :
    (m : MockConsumer) (ack_id : String)
    → m.ack_status ≡ "normal_ack"
    → ack m ack_id ≡ (none, record m { ack_messages = append m.ack_messages (ack_id ∷ []) })
unfolding ack
ack-normal m ack_id e = rw e refl

pub consume-empty :
    (env : Environment) (now : String) (m : MockConsumer) (n : ℕ)
    → m.sub_status ≡ "empty_sub"
    → consume env now m n ≡ (ok (record { rec_msgs = [] }), m)
unfolding consume
consume-empty env now m n e = rw e refl

-- The loop over a positive int64 runs that often.
pub rounds-positive : (n : ℕ) → suc n < sign_bit → rounds (suc n) ≡ suc n
rounds-positive n h = ground (arith, slt-exact (suc n) 1)
