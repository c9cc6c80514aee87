-- ===== src/Senders/Delivery.antt =====
-- senders/httpsender.go and mattermostsender.go: what has been sent when a delivery succeeds.

use ams_push_server.Base.{
  ◌∷◌, Option, true, ap, ℕ, String, ◌==◌, ◌≡◌, ◌≢◌, inl, inr, refl, sym, ◌∙◌, Bool, List, [], ◌∷◌,
  Option, none, Result, ok, err, arith, eqb, Go, returns, panics, Bool-cases,
}
use ams_push_server.Environment.{
  Environment, History, HttpRequest, HttpResponse, Payload, push_msg, push_msgs,
}
use ams_push_server.Ams.Calls.{Tried}
use ams_push_server.Senders.Types.{
  PushMsg, PushMsgs, PushMessageFormat, single_message_format, multiple_message_format,
}
use ams_push_server.Senders.{
  Sender, http_sender, mattermost_sender, HttpSender, MattermostSender, send_http, send_mattermost,
  message_body, mattermost_body, http_outcome, mattermost_outcome, post, posted, finish_http,
  single_body, send_messages,
}
use ams_push_server.Senders.Posting.{
  IsPosted, is_http_success, is_delivered_lem, finish_http-SetsHeaders,
  finish_mattermost-SetsHeaders, http_outcome-only, mattermost_outcome-only, post-Tried,
  post-IsPosted, post-built, blank,
}

-- What a worker relies on of a sender: it does not panic on messages, tries one request to its
-- destination, and reports no error only if that request, with the encoded messages, was accepted.
pub record IsDelivering (env : Environment) (s : Sender History) : Type 0 where
  pub accepts : ℕ → Bool
  pub encodes : PushMsgs → PushMessageFormat → Result String String
  pub total :
      (msgs : PushMsgs) (format : PushMessageFormat) (h : History)
      → msgs.messages ≢ []
      → (r : Option String × History) × (s.send msgs format h ≡ returns r)
  pub tries :
      (msgs : PushMsgs) (format : PushMessageFormat) (h : History) (r : Option String × History)
      → s.send msgs format h ≡ returns r
      → Tried "POST" s.destination h r.1
  pub delivers :
      (msgs : PushMsgs) (format : PushMessageFormat) (h h' : History)
      → s.send msgs format h ≡ returns (none, h')
      → (b : String) × (encodes msgs format ≡ ok b) × IsPosted env s.destination b accepts h h'

module _ (env : Environment) (s : HttpSender) where
  -- The encoded messages: the first one for the single format, all of them for the other.
  abbrev pub http_encodes : PushMsgs → PushMessageFormat → Result String String
  http_encodes msgs format = elim (message_body env msgs format) [ returns r ↦ r | panics ↦ err "" ]

  posted_returns :
      (body : Go (Result String String)) (h : History) (r : Option String × History)
      → posted env (finish_http env s) (http_outcome env) s.endpoint body h ≡ returns r
      → (b : Result String String) × (body ≡ returns b)
        × (r ≡ post env (finish_http env s) (http_outcome env) s.endpoint b h)
  unfolding posted
  posted_returns (returns b) h r p = (b, refl, ground arith)
  posted_returns panics h r p = cc

  encoded_as :
      (msgs : PushMsgs) (format : PushMessageFormat) {b : Result String String}
      → message_body env msgs format ≡ returns b
      → http_encodes msgs format ≡ b
  encoded_as msgs format e = rw (e, http_encodes)

  single_body-total :
      (l : List PushMsg) → l ≢ [] → (b : Result String String) × (single_body env l ≡ returns b)
  unfolding single_body
  single_body-total [] ne = absurd (ne refl)
  single_body-total (m ∷ ms) ne = (_, refl)

  pub message_body-total :
      (msgs : PushMsgs) (format : PushMessageFormat)
      → msgs.messages ≢ []
      → (b : Result String String) × (message_body env msgs format ≡ returns b)
  unfolding message_body
  message_body-total msgs format ne = elim (Bool-cases (format == single_message_format)) [
    | inl one ↦ rw one (single_body-total msgs.messages ne)
    | inr f ↦ elim (Bool-cases (format == multiple_message_format)) [
      | inl many ↦ rw (f, many) (_, refl)
      | inr other ↦ rw (f, other) (_, refl)
    ]
  ]

  send_http-total :
      (msgs : PushMsgs) (format : PushMessageFormat) (h : History)
      → msgs.messages ≢ []
      → (r : Option String × History) × (send_http env s msgs format h ≡ returns r)
  unfolding send_http
  send_http-total msgs format h ne =
      let (b, e) = message_body-total msgs format ne in
      (post env (finish_http env s) (http_outcome env) s.endpoint b h, rw (e, posted) refl)

  pub send_http-tries :
      (msgs : PushMsgs) (format : PushMessageFormat) (h : History) (r : Option String × History)
      → send_http env s msgs format h ≡ returns r
      → Tried "POST" s.endpoint h r.1
  unfolding send_http
  send_http-tries msgs format h r p =
      let (b, e, q) = posted_returns (message_body env msgs format) h r p in
      rw q (post-Tried env _ (http_outcome env) s.endpoint (finish_http-SetsHeaders env s) b h)

  pub send_http-delivers :
      (msgs : PushMsgs) (format : PushMessageFormat) (h h' : History)
      → send_http env s msgs format h ≡ returns (none, h')
      → (b : String) × (http_encodes msgs format ≡ ok b)
        × IsPosted env s.endpoint b is_http_success h h'
  unfolding send_http
  send_http-delivers msgs format h h' p =
      let (body, e, q) = posted_returns (message_body env msgs format) h (none, h') p in
      let (b, c, d) =
        post-IsPosted env _ _ s.endpoint (finish_http-SetsHeaders env s)
          (record { only = http_outcome-only env }) body h h' (sym q) in
      (b, encoded_as msgs format e ∙ c, d)

  -- An http sender meets what a worker relies on. It takes the status codes 200, 201, 204 and 102 for
  -- a delivery, and the body is the first message or all of them, by the format.
  pub http_sender-IsDelivering : IsDelivering env (http_sender env s)
  http_sender-IsDelivering = record {
    accepts = is_http_success;
    encodes = http_encodes;
    total = send_http-total;
    tries = send_http-tries;
    delivers = send_http-delivers;
  }

  single_body-encoded :
      ((p : Payload) → (b : String) × (env.marshal p ≡ ok b))
      → (l : List PushMsg) → l ≢ []
      → (b : String) × (single_body env l ≡ returns (ok b))
  unfolding single_body
  single_body-encoded marshals [] ne = absurd (ne refl)
  single_body-encoded marshals (m ∷ ms) ne = let (b, e) = marshals (push_msg m) in (b, ap returns e)

  -- If what is encoded as json can be encoded, the body of some messages can.
  message_body-encoded :
      ((p : Payload) → (b : String) × (env.marshal p ≡ ok b))
      → (msgs : PushMsgs) (format : PushMessageFormat) → msgs.messages ≢ []
      → (b : String) × (message_body env msgs format ≡ returns (ok b))
  unfolding message_body
  message_body-encoded marshals msgs format ne =
      elim (Bool-cases (format == single_message_format)) [
        | inl one ↦ rw one (single_body-encoded marshals msgs.messages ne)
        | inr f ↦ elim (Bool-cases (format == multiple_message_format)) [
          | inl many ↦ let (b, e) = marshals (push_msgs msgs) in rw (f, many) (b, ap returns e)
          | inr other ↦ rw (f, other) ("", refl)
        ]
      ]

  -- Messages are delivered if they can be encoded, the request can be built, and the destination
  -- answers it with a status code that is taken for a delivery.
  pub send_http-answered :
      ((p : Payload) → (b : String) × (env.marshal p ≡ ok b))
      → (msgs : PushMsgs) (format : PushMessageFormat) (h : History) (resp : HttpResponse)
      → msgs.messages ≢ []
      → env.new_request_error "POST" s.endpoint ≡ none
      → ((r : HttpRequest) → r.url ≡ s.endpoint → env.round_trip h r ≡ ok resp)
      → is_http_success resp.status_code ≡ true
      → (h' : History) × (send_http env s msgs format h ≡ returns (none, h'))
  unfolding send_http posted http_outcome
  send_http-answered marshals msgs format h resp ne fine answers taken =
      let (b, e) = message_body-encoded marshals msgs format ne in
      let r = finish_http env s (blank env (finish_http env s) (http_outcome env) s.endpoint b) in
      (
        r ∷ h,
        ap (λ m. posted env (finish_http env s) (http_outcome env) s.endpoint m h) e
            ∙ ap returns (
                post-built env (finish_http env s) (http_outcome env) s.endpoint b h fine
                ∙ ap (λ x. (http_outcome env x, r ∷ h))
                    (answers r ((finish_http-SetsHeaders env s).url_kept _))
                ∙ ap (λ (o : Option String). (o, r ∷ h))
                    (rw (is_delivered_lem env resp.status_code, taken) refl)),
      )

module _ (env : Environment) (s : MattermostSender) where
  -- The body is the text of the first message, whatever the format and the other messages.
  abbrev pub mattermost_encodes : PushMsgs → PushMessageFormat → Result String String
  mattermost_encodes msgs format = elim msgs.messages [
    | [] ↦ err "no message"
    | m ∷ ms ↦ mattermost_body env s m
  ]

  send_messages-tries :
      (l : List PushMsg) (h : History) → Tried "POST" s.webhook_url h (send_messages env s l h).1
  unfolding send_messages
  send_messages-tries [] h = inl refl
  send_messages-tries (m ∷ ms) h =
      post-Tried env _ (mattermost_outcome env) s.webhook_url (finish_mattermost-SetsHeaders env) _
        h

  send_messages-delivers :
      (l : List PushMsg) (h h' : History)
      → send_messages env s l h ≡ (none, h')
      → (b : String) × (mattermost_encodes (record { messages = l }) "" ≡ ok b)
        × IsPosted env s.webhook_url b (λ code. eqb code 200) h h'
  unfolding send_messages
  send_messages-delivers [] h h' p = cc
  send_messages-delivers (m ∷ ms) h h' p =
      post-IsPosted env _ _ s.webhook_url (finish_mattermost-SetsHeaders env)
        (record { only = mattermost_outcome-only env }) _ h h' p

  returned {ℓ} : {A : Type ℓ} {a b : A} → returns a ≡ returns b → a ≡ b
  returned p = cc

  pub send_mattermost-tries :
      (msgs : PushMsgs) (format : PushMessageFormat) (h : History) (r : Option String × History)
      → send_mattermost env s msgs format h ≡ returns r
      → Tried "POST" s.webhook_url h r.1
  unfolding send_mattermost
  send_mattermost-tries msgs format h r p = rw (← returned p) (send_messages-tries msgs.messages h)

  pub send_mattermost-delivers :
      (msgs : PushMsgs) (format : PushMessageFormat) (h h' : History)
      → send_mattermost env s msgs format h ≡ returns (none, h')
      → (b : String) × (mattermost_encodes msgs format ≡ ok b)
        × IsPosted env s.webhook_url b (λ code. eqb code 200) h h'
  unfolding send_mattermost
  send_mattermost-delivers msgs format h h' p =
      send_messages-delivers msgs.messages h h' (returned p)

  -- A mattermost sender meets what a worker relies on. It takes the status code 200 alone for a
  -- delivery, and the body has the text of the first message only.
  pub mattermost_sender-IsDelivering : IsDelivering env (mattermost_sender env s)
  unfolding send_mattermost
  mattermost_sender-IsDelivering = record {
    accepts = λ code. eqb code 200;
    encodes = mattermost_encodes;
    total = λ msgs format h ne. (_, refl);
    tries = send_mattermost-tries;
    delivers = send_mattermost-delivers;
  }
