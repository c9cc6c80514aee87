-- ===== src/Senders/FirstOnly.antt =====
-- senders/mattermostsender.go: a delivery of several messages.
use ams_push_server.Base.{
  String, ◌≡◌, ap, ◌∙◌, true, List, ◌∷◌, none, ok, eqb, returns, refl, Option,
}
use ams_push_server.Environment.{
  Environment, History, HttpRequest, HttpResponse, mattermost_message,
}
use ams_push_server.Senders.Types.{PushMsg, PushMessageFormat}
use ams_push_server.Senders.{
  MattermostSender, send_mattermost, send_messages, mattermost_body, mattermost_outcome,
  finish_mattermost, post,
}
use ams_push_server.Senders.Posting.{post-built, blank}

module _ (env : Environment) (s : MattermostSender) where
  -- The request that posts this body to the webhook.
  unfoldable pub request_of : String → HttpRequest
  request_of b =
      finish_mattermost env
        (blank env (finish_mattermost env) (mattermost_outcome env) s.webhook_url b)

  -- If the text of the first message is taken, the whole list is.
  pub send_mattermost-answered :
      (m : PushMsg) (l : List PushMsg) (format : PushMessageFormat) (h : History) {b : String}
      (resp : HttpResponse)
      → env.marshal (
          mattermost_message
            (record { text = m.msg.content; username = s.username; channel = s.channel }))
        ≡ ok b
      → env.new_request_error "POST" s.webhook_url ≡ none
      → env.round_trip h (request_of b) ≡ ok resp
      → eqb resp.status_code 200 ≡ true
      → send_mattermost env s (record { messages = m ∷ l }) format h
        ≡ returns (none, request_of b ∷ h)
  unfolding send_mattermost send_messages mattermost_body mattermost_outcome request_of
  send_mattermost-answered m l format h {b} resp encoded fine answer taken = ap returns (
      ap (λ x. post env (finish_mattermost env) (mattermost_outcome env) s.webhook_url x h) encoded
      ∙ post-built env (finish_mattermost env) (mattermost_outcome env) s.webhook_url b h fine
      ∙ ap (λ x. (mattermost_outcome env x, request_of b ∷ h)) answer
      ∙ ap (λ (o : Option String). (o, request_of b ∷ h)) (rw taken refl))
