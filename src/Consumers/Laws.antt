-- ===== src/Consumers/Laws.antt =====
-- consumers/amshttpconsumer.go: what the calls have sent, and which errors are cancelable.
use ams_push_server.Base.{
  ℕ, String, eq_iff, ◌≡◌, ◌≢◌, ◌↔◌, ◌⊎◌, refl, ap, true, List, [], ◌∷◌, ◌∙◌, Option, none, some,
  Result, ok, err, arith,
}
use ams_push_server.Environment.{Environment, History, AmsHttpError}
use ams_push_server.Ams
use ams_push_server.Ams.Calls.{
  IsPulled, IsAcked, Tried, pull-IsPulled, ack-IsAcked, pull-Tried, ack-Tried,
}
use ams_push_server.Ams.Types.{ReceivedMessage, ReceivedMessagesList}
use ams_push_server.Consumers.{
  AmsHttpConsumer, CancelableError, consume, ack, ack_error, refuse_empty, to_cancelable_error,
  cancelable, project_not_found, subscription_not_found,
}

module _ (env : Environment) (ahc : AmsHttpConsumer) where
  refuse_empty-ok :
      (r : Result String ReceivedMessagesList) {rml : ReceivedMessagesList}
      → refuse_empty env ahc r ≡ ok rml
      → (r ≡ ok rml) × (rml.rec_msgs ≢ [])
  unfolding refuse_empty
  refuse_empty-ok (err e) h = cc
  refuse_empty-ok (ok l) h = ground arith

  refuse_empty-some :
      (l : List ReceivedMessage)
      → l ≢ []
      → refuse_empty env ahc (ok (record { rec_msgs = l })) ≡ ok (record { rec_msgs = l })
  unfolding refuse_empty
  refuse_empty-some [] ne = absurd (ne refl)
  refuse_empty-some (m ∷ ms) ne = ground arith

  -- Consuming returns a list only if it is not empty and is what a pull of the consumer's
  -- subscription, answered with a 2xx status, decodes to.
  pub consume-IsPulled :
      (n : ℕ) (h h' : History) (rml : ReceivedMessagesList)
      → consume env ahc n h ≡ (ok rml, h')
      → IsPulled env ahc.ams_client.message_service ahc.full_sub n h rml h' × (rml.rec_msgs ≢ [])
  unfolding consume
  consume-IsPulled n h h' rml e =
      let (r, ne) = refuse_empty-ok _ (ap (λ p. p.0) e) in
      (
        pull-IsPulled env ahc.ams_client.message_service ahc.full_sub n h h' rml
            (λ i. (r i, (e i).1)),
        ne,
      )

  -- A pull that returns messages gives them to the caller.
  pub consume-received :
      (n : ℕ) (h : History) {h' : History} {rml : ReceivedMessagesList}
      → rml.rec_msgs ≢ []
      → Ams.pull env ahc.ams_client.message_service ahc.full_sub n true h ≡ (ok rml, h')
      → consume env ahc n h ≡ (ok rml, h')
  unfolding consume
  consume-received n h {h'} {rml} ne e =
      ap (λ x. (refuse_empty env ahc x.0, x.1)) e
      ∙ ap (λ x. (x, h')) (refuse_empty-some rml.rec_msgs ne)

  pub ack-done :
      (ack_id : String) (h : History) {h' : History}
      → Ams.ack env ahc.ams_client.message_service ahc.full_sub ack_id h ≡ (none, h')
      → ack env ahc ack_id h ≡ (none, h')
  unfolding ack ack_error
  ack-done ack_id h e = ap (λ x. (ack_error env ahc ack_id x.0, x.1)) e

  pub consume-Tried :
      (n : ℕ) (h : History)
      → Tried "POST"
          (Ams.pull_request env ahc.ams_client.message_service ahc.full_sub n true).url
          h
          (consume env ahc n h).1
  unfolding consume
  consume-Tried n h = pull-Tried env ahc.ams_client.message_service ahc.full_sub n h

  ack_error-none :
      (ack_id : String) (o : Option String) → ack_error env ahc ack_id o ≡ none → o ≡ none
  unfolding ack_error
  ack_error-none ack_id none h = refl
  ack_error-none ack_id (some e) h = cc

  pub ack-IsAcked_lem :
      (ack_id : String) (h h' : History)
      → ack env ahc ack_id h ≡ (none, h')
      → IsAcked env ahc.ams_client.message_service ahc.full_sub ack_id h h'
  unfolding ack
  ack-IsAcked_lem ack_id h h' e =
      ack-IsAcked env ahc.ams_client.message_service ahc.full_sub ack_id h h'
        (λ i. (ack_error-none ack_id _ (ap (λ p. p.0) e) i, (e i).1))

  -- The two errors of the ams api that stop a worker.
  abbrev pub IsCancelable : String → CancelableError → Type 0
  IsCancelable error ce =
      (ahe : AmsHttpError) × (env.unmarshal_ams_error error ≡ ok ahe)
      × (ce ≡ record { err_msg = ahe.error.message; resource = ahc.full_sub })
      × ((ahe.error.message ≡ project_not_found) ⊎ (ahe.error.message ≡ subscription_not_found))

  cancelable-some :
      (r : Result String AmsHttpError) {ce : CancelableError}
      → cancelable env ahc r ≡ some ce
      → (ahe : AmsHttpError) × (r ≡ ok ahe)
        × (ce ≡ record { err_msg = ahe.error.message; resource = ahc.full_sub })
        × ((ahe.error.message ≡ project_not_found) ⊎ (ahe.error.message ≡ subscription_not_found))
  unfolding cancelable
  cancelable-some (err e) h = cc
  cancelable-some (ok ahe) h = (
    ahe,
    refl,
    ground (
      arith,
      eq_iff ahe.error.message project_not_found,
      eq_iff ahe.error.message subscription_not_found,
    ),
    ground (
      arith,
      eq_iff ahe.error.message project_not_found,
      eq_iff ahe.error.message subscription_not_found,
    ),
  )

  cancelable_of :
      (r : Result String AmsHttpError) (ce : CancelableError) (ahe : AmsHttpError)
      → r ≡ ok ahe
      → ce ≡ record { err_msg = ahe.error.message; resource = ahc.full_sub }
      → (ahe.error.message ≡ project_not_found) ⊎ (ahe.error.message ≡ subscription_not_found)
      → cancelable env ahc r ≡ some ce
  unfolding cancelable
  cancelable_of r ce ahe p q c = ground (
    arith,
    eq_iff ahe.error.message project_not_found,
    eq_iff ahe.error.message subscription_not_found,
  )

  -- An error is cancelable exactly if it decodes to an error of the ams api with one of the two
  -- messages, and the error to signal then names that message and the consumer's subscription.
  pub to_cancelable_error_iff :
      (error : String) (ce : CancelableError)
      → (to_cancelable_error env ahc error ≡ some ce) ↔ IsCancelable error ce
  unfolding to_cancelable_error
  to_cancelable_error_iff error ce = (cancelable-some _, λ c. cancelable_of _ ce c.0 c.1 c.2 c.3)

  pub ack-Tried_lem :
      (ack_id : String) (h : History)
      → Tried "POST"
          (Ams.ack_request env ahc.ams_client.message_service ahc.full_sub ack_id).url
          h
          (ack env ahc ack_id h).1
  unfolding ack
  ack-Tried_lem ack_id h = ack-Tried env ahc.ams_client.message_service ahc.full_sub ack_id h
