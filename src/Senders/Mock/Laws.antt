-- ===== src/Senders/Mock/Laws.antt =====
-- senders/mock.go: what the mock sender keeps.
use ams_push_server.Base.{
  ◌==◌, ◌≡◌, refl, ◌∙◌, false, List, [], ◌∷◌, append, append-nil, append_assoc, none, returns,
  panics, ap,
}
use ams_push_server.Senders.Types.{
  PushMsg, PushMsgs, single_message_format, multiple_message_format,
}
use ams_push_server.Senders.Mock.{MockSender, keep, keep_all, keep_first, kept, send}

keep_all-append :
    (s : MockSender) (ms : List PushMsg)
    → keep_all s ms ≡ record s { push_messages = append s.push_messages ms }
unfolding keep_all keep
keep_all-append s [] = rw (append-nil s.push_messages) refl
keep_all-append s (m ∷ ms) =
    keep_all-append (record s { push_messages = append s.push_messages (m ∷ []) }) ms
    ∙ rw (append_assoc s.push_messages (m ∷ []) ms) refl

module _ (s : MockSender) (fine : (s.send_status == "error_send") ≡ false) where
  pub send-single :
      (m : PushMsg) (ms : List PushMsg)
      → send s (record { messages = m ∷ ms }) single_message_format
        ≡ returns (none, record s { push_messages = append s.push_messages (m ∷ []) })
  unfolding send keep_first keep kept
  send-single m ms = rw fine refl

  pub send-multiple :
      (msgs : PushMsgs)
      → send s msgs multiple_message_format
        ≡ returns (none, record s { push_messages = append s.push_messages msgs.messages })
  unfolding send
  send-multiple msgs = rw fine (ap (λ t. returns (none, t)) (keep_all-append s msgs.messages))

  pub send_single_empty : send s (record { messages = [] }) single_message_format ≡ panics
  unfolding send keep_first kept
  send_single_empty = rw fine refl
