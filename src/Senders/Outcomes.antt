-- ===== src/Senders/Outcomes.antt =====
-- senders/httpsender.go and mattermostsender.go: how sending may end, errors included.
use ams_push_server.Base.{
  ℕ, String, ◌++◌, ◌==◌, eq_iff, ◌≡◌, ◌≢◌, refl, ap, Bool, true, false, List, [], ◌∷◌, Option, none,
  some, Result, ok, err, returns, eqb, empty, Bool-cases, Option-cases, ◌⊎◌, inl, inr, ne_of_test,
}
use ams_push_server.Environment.{Environment, History, HttpRequest, HttpResponse}
use ams_push_server.Senders.Types.{
  PushMsg, PushMsgs, PushMessageFormat, MattermostError, error_text,
}
use ams_push_server.Senders.{
  HttpSender, MattermostSender, send_http, send_mattermost, message_body, mattermost_body,
  http_outcome, mattermost_outcome, mattermost_failure, post, posted, finish_http,
  finish_mattermost, send_messages,
}
use ams_push_server.Senders.Posting.{post-built, post-not_built, is_http_success, is_delivered_lem}
use ams_push_server.Senders.Delivery.{message_body-total}

-- The request that posts a body, before its headers are set.
abbrev pub post_request : String → String → HttpRequest
post_request url b = record { method = "POST"; url = url; body = some b; header = empty }

module _ (env : Environment) (finish : HttpRequest → HttpRequest) (url : String)
    (accepts : ℕ → Bool) (Reason : HttpResponse → String → Type 0) where
  -- The error and the history after sending a body, which was encoded or not, with the history `h`
  -- before: `finish` sets the headers of the request, and `Reason` is the text for a refusal.
  pub data IsSendOutcome (body : Result String String) (h : History)
      : Option String × History → Type 0 where
    unencoded : (e : String) → body ≡ err e → IsSendOutcome body h (some e, h)
    unbuilt :
        (b e : String)
        → body ≡ ok b
        → env.new_request_error "POST" url ≡ some e
        → IsSendOutcome body h (some e, h)
    unanswered :
        (b e : String)
        → body ≡ ok b
        → env.new_request_error "POST" url ≡ none
        → env.round_trip h (finish (post_request url b)) ≡ err e
        → IsSendOutcome body h (some e, finish (post_request url b) ∷ h)
    refused :
        (b e : String) (resp : HttpResponse)
        → body ≡ ok b
        → env.new_request_error "POST" url ≡ none
        → env.round_trip h (finish (post_request url b)) ≡ ok resp
        → accepts resp.status_code ≡ false
        → Reason resp e
        → IsSendOutcome body h (some e, finish (post_request url b) ∷ h)
    accepted :
        (b : String) (resp : HttpResponse)
        → body ≡ ok b
        → env.new_request_error "POST" url ≡ none
        → env.round_trip h (finish (post_request url b)) ≡ ok resp
        → accepts resp.status_code ≡ true
        → IsSendOutcome body h (none, finish (post_request url b) ∷ h)

  -- The outcome that a sender computes from a reply.
  record Classifies (outcome : Result String HttpResponse → Option String) : Type 0 where
    fails : (e : String) → outcome (err e) ≡ some e
    takes : (resp : HttpResponse) → accepts resp.status_code ≡ true → outcome (ok resp) ≡ none
    refuses :
        (resp : HttpResponse)
        → accepts resp.status_code ≡ false
        → (e : String) × (outcome (ok resp) ≡ some e) × Reason resp e

  module _ (outcome : Result String HttpResponse → Option String) (c : Classifies outcome) where
    answered :
        (b : String) (h : History) (reply : Result String HttpResponse)
        → env.new_request_error "POST" url ≡ none
        → env.round_trip h (finish (post_request url b)) ≡ reply
        → IsSendOutcome (ok b) h (outcome reply, finish (post_request url b) ∷ h)
    answered b h (err e) built r = rw (c.fails e) (unanswered b e refl built r)
    answered b h (ok resp) built r = elim (Bool-cases (accepts resp.status_code)) [
      | inl t ↦ rw (c.takes resp t) (accepted b resp refl built r t)
      | inr f ↦
          let (e, o, reason) = c.refuses resp f in rw o (refused b e resp refl built r f reason)
    ]

    post-IsSendOutcome :
        (body : Result String String) (h : History)
        → IsSendOutcome body h (post env finish outcome url body h)
    post-IsSendOutcome (err e) h = unfold post in unencoded e refl
    post-IsSendOutcome (ok b) h = elim (Option-cases (env.new_request_error "POST" url)) [
      | inl built ↦ rw (post-built env finish outcome url b h built) (answered b h _ built refl)
      | inr (e, un) ↦ rw (post-not_built env finish outcome url b h un) (unbuilt b e refl un)
    ]

-- The text of a refusal of an http destination: the body.
abbrev pub IsBody : HttpResponse → String → Type 0
IsBody resp e = e ≡ resp.body.content

-- The text of a refusal of mattermost: the error that stopped the reading of the body; the body, if it
-- is not an error of mattermost; or that error's message, with its details if there are any.
pub data IsReason (env : Environment) (resp : HttpResponse) : String → Type 0 where
  unreadable : (e : String) → resp.body.read_error ≡ some e → IsReason env resp e
  unparsed :
      (e : String)
      → resp.body.read_error ≡ none
      → env.unmarshal_mattermost_error resp.body.content ≡ err e
      → IsReason env resp resp.body.content
  brief :
      (m : MattermostError)
      → resp.body.read_error ≡ none
      → env.unmarshal_mattermost_error resp.body.content ≡ ok m
      → m.detailed_error ≡ ""
      → IsReason env resp m.message
  detailed :
      (m : MattermostError)
      → resp.body.read_error ≡ none
      → env.unmarshal_mattermost_error resp.body.content ≡ ok m
      → m.detailed_error ≢ ""
      → IsReason env resp ((m.message ++ ".") ++ m.detailed_error)

module _ (env : Environment) where
  http_outcome-Classifies :
      (url : String) (s : HttpSender)
      → Classifies env (finish_http env s) url is_http_success IsBody (http_outcome env)
  unfolding http_outcome
  http_outcome-Classifies url s = record {
    fails = λ e. refl;
    takes = λ resp t. rw (is_delivered_lem env resp.status_code, t) refl;
    refuses =
        λ resp f. (resp.body.content, rw (is_delivered_lem env resp.status_code, f) refl, refl);
  }

  -- Sending at least one message over http does not panic. With `b` the encoded messages, it ends in
  -- one of the ways of `IsSendOutcome`: every failure is reported, with the text of the body for a
  -- status code that is none of 200, 201, 204 and 102.
  pub send_http-IsSendOutcome :
      (s : HttpSender) (msgs : PushMsgs) (format : PushMessageFormat) (h : History)
      → msgs.messages ≢ []
      → (b : Result String String) × (x : Option String × History) × (message_body env msgs format
          ≡ returns b)
        × (send_http env s msgs format h ≡ returns x)
        × IsSendOutcome env (finish_http env s) s.endpoint is_http_success IsBody b h x
  unfolding send_http posted
  send_http-IsSendOutcome s msgs format h ne =
      let (b, e) = message_body-total env s msgs format ne in
      (
        b,
        post env (finish_http env s) (http_outcome env) s.endpoint b h,
        e,
        ap (λ m. posted env (finish_http env s) (http_outcome env) s.endpoint m h) e,
        post-IsSendOutcome env (finish_http env s) s.endpoint is_http_success IsBody
            (http_outcome env) (http_outcome-Classifies s.endpoint s) b h,
      )

  parsed-IsReason :
      (resp : HttpResponse) (m : Result String MattermostError)
      → env.unmarshal_mattermost_error resp.body.content ≡ m
      → resp.body.read_error ≡ none
      → IsReason env resp (elim m [ err e ↦ resp.body.content | ok m ↦ error_text m ])
  unfolding error_text
  parsed-IsReason resp (err e) p readable = unparsed e readable p
  parsed-IsReason resp (ok m) p readable = elim (Bool-cases (m.detailed_error == "")) [
    | inl t ↦ rw t (brief m readable p ((eq_iff m.detailed_error "").0 t))
    | inr f ↦ rw f (detailed m readable p (ne_of_test f))
  ]

  failure-IsReason :
      (resp : HttpResponse) (o : Option String)
      → resp.body.read_error ≡ o
      → IsReason env resp (mattermost_failure env o resp.body.content)
  unfolding mattermost_failure
  failure-IsReason resp (some e) r = unreadable e r
  failure-IsReason resp none r =
      parsed-IsReason resp (env.unmarshal_mattermost_error resp.body.content) refl r

  mattermost_outcome-Classifies :
      (url : String)
      → Classifies env
          (finish_mattermost env)
          url
          (λ code. eqb code 200)
          (IsReason env)
          (mattermost_outcome env)
  unfolding mattermost_outcome
  mattermost_outcome-Classifies url = record {
    fails = λ e. refl;
    takes = λ resp t. rw t refl;
    refuses = λ resp f. (_, rw f refl, failure-IsReason resp resp.body.read_error refl);
  }

  of_list :
      (s : MattermostSender) (h : History) (l : List PushMsg)
      → ((l ≡ []) × (send_messages env s l h ≡ (some "no message", h)))
        ⊎ ((m : PushMsg) × (rest : List PushMsg) × (l ≡ m ∷ rest)
            × IsSendOutcome env
                (finish_mattermost env)
                s.webhook_url
                (λ code. eqb code 200)
                (IsReason env)
                (mattermost_body env s m)
                h
                (send_messages env s l h))
  unfolding send_messages
  of_list s h [] = inl (refl, refl)
  of_list s h (m ∷ rest) = inr (
    m,
    rest,
    refl,
    post-IsSendOutcome env (finish_mattermost env) s.webhook_url (λ code. eqb code 200)
        (IsReason env) (mattermost_outcome env) (mattermost_outcome-Classifies s.webhook_url)
        (mattermost_body env s m) h,
  )

  -- Sending to mattermost never panics. Without messages it reports that there is none; otherwise it
  -- ends, for the first message, in one of the ways of `IsSendOutcome`: every failure is reported, with
  -- the text of `IsReason` for a status code that is not 200.
  pub send_mattermost-IsSendOutcome :
      (s : MattermostSender) (msgs : PushMsgs) (format : PushMessageFormat) (h : History)
      → (x : Option String × History) × (send_mattermost env s msgs format h ≡ returns x)
        × (((msgs.messages ≡ []) × (x ≡ (some "no message", h)))
            ⊎ ((m : PushMsg) × (rest : List PushMsg) × (msgs.messages ≡ m ∷ rest)
                × IsSendOutcome env
                    (finish_mattermost env)
                    s.webhook_url
                    (λ code. eqb code 200)
                    (IsReason env)
                    (mattermost_body env s m)
                    h
                    x))
  unfolding send_mattermost
  send_mattermost-IsSendOutcome s msgs format h = (_, refl, of_list s h msgs.messages)
