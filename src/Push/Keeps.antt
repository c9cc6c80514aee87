-- ===== src/Push/Keeps.antt =====
-- push/worker.go: what a push cycle leaves alone, over any consumer and any sender.
use mathlib.Core.Path.{subst}
use ams_push_server.Base.{
  String, ◌≡◌, refl, Option, none, some, Result, ok, err, arith, Go, returns, panics, go_bind,
  deref,
}
use ams_push_server.Proto
use ams_push_server.Ams.Types.{ReceivedMessage, ReceivedMessagesList, last}
use ams_push_server.Push.{Worker, Pushed, push, consumed, consume_failed, sent, acknowledged}

-- A cycle changes the registered error only.
pub record SameButError {W : Type 0} (w w' : Worker W) : Type 0 where
  pub sub_kept : w'.sub ≡ w.sub
  pub consumer_kept : w'.consumer ≡ w.consumer
  pub sender_kept : w'.sender ≡ w.sender
  pub cancelled_kept : w'.cancelled ≡ w.cancelled
  pub policy_kept : w'.retry_policy ≡ w.retry_policy

module _ {W : Type 0} (base64_decode : String → Result String String) (now : String)
    (w : Worker W) where
  returned : {a b : Pushed W} → returns a ≡ returns b → a ≡ b
  returned e = cc

  pub error_set : {error : String} → SameButError w (record w { push_err = error })
  error_set = record {
    sub_kept = refl;
    consumer_kept = refl;
    sender_kept = refl;
    cancelled_kept = refl;
    policy_kept = refl;
  }

  pub acknowledged-keeps :
      (a : Option String × W) → SameButError w (acknowledged base64_decode now w a).worker
  unfolding acknowledged
  acknowledged-keeps (some e, v) = error_set
  acknowledged-keeps (none, v) = error_set

  Kept : Go (Pushed W) → Type 0
  Kept r = (p : Pushed W) → r ≡ returns p → SameButError w p.worker

  last_step :
      (rml : ReceivedMessagesList) (v : W) (l : Go ReceivedMessage)
      → Kept
          (go_bind l λ rm. returns (acknowledged base64_decode now w (w.consumer.ack rm.ack_id v)))
  unfolding Kept
  last_step rml v panics p e = cc
  last_step rml v (returns rm) p e =
      subst (λ q. SameButError w q.worker) (returned e) (acknowledged-keeps _)

  sent-keeps :
      (rml : ReceivedMessagesList) (r : Option String × W) → Kept (sent base64_decode now w rml r)
  unfolding sent Kept
  sent-keeps rml (some e, v) p q = subst (λ q. SameButError w q.worker) (returned q) error_set
  sent-keeps rml (none, v) p q = last_step rml v (last rml) p q

  bind-keeps :
      {A : Type 0} (m : Go A) (f : A → Go (Pushed W)) → ((a : A) → Kept (f a)) → Kept (go_bind m f)
  unfolding Kept
  bind-keeps (returns a) f k p e = k a p e
  bind-keeps panics f k p e = cc

  pub consume_failed-keeps :
      (v : W) (error : String) → SameButError w (consume_failed base64_decode now w v error).worker
  unfolding consume_failed
  consume_failed-keeps v error = ground arith

  consumed-keeps :
      (cfg : Proto.PushConfig) (r : Result String ReceivedMessagesList × W)
      → Kept (consumed base64_decode now w cfg r)
  unfolding consumed Kept
  consumed-keeps cfg (err e, v) p q =
      subst (λ q. SameButError w q.worker) (returned q) (consume_failed-keeps v e)
  consumed-keeps cfg (ok rml, v) p q =
      bind-keeps (deref w.sender) _ (λ s. bind-keeps (s.send _ _ v) _ (sent-keeps rml)) p q

  -- A cycle leaves the subscription, the consumer, the sender, the context and the retry policy of
  -- the worker alone.
  pub push-keeps :
      (world : W) (p : Pushed W)
      → push base64_decode now w world ≡ returns p
      → SameButError w p.worker
  unfolding push Kept
  push-keeps world p e = bind-keeps (deref w.sub.push_config) _ (λ cfg. consumed-keeps cfg _) p e
