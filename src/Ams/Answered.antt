-- ===== src/Ams/Answered.antt =====
-- pkg/ams/v1: a call whose request is answered.
use ams_push_server.Base.{ℕ, ◌++◌, ◌≤◌, ◌<◌, String, ◌≡◌, ◌∷◌, none, ok, true, arith, ◌∙◌, ap}
use ams_push_server.Environment.{Environment, History, HttpRequest, HttpResponse}
use ams_push_server.Ams.{
  AmsRequest, execute, check_status, decoded, get_request, get_user_by_token, get_subscription,
  UserService, SubscriptionService, MessageService, pull, ack, pull_request, ack_request, error_of,
}
use ams_push_server.Ams.Calls.{built, built-IsCallTo, execute-built}

module _ (env : Environment) where
  -- A request that is built, and answered with a 2xx status by its url, is sent once.
  execute-answered :
      (a : AmsRequest) (h : History) (resp : HttpResponse)
      → env.new_request_error a.method a.url ≡ none
      → ((r : HttpRequest) → r.url ≡ a.url → env.round_trip h r ≡ ok resp)
      → 200 ≤ resp.status_code
      → resp.status_code < 300
      → execute env a h ≡ (ok resp, built env a ∷ h)
  unfolding check_status
  execute-answered a h resp fine answers low high =
      execute-built env a h fine
      ∙ ap (λ x. (check_status env x, built env a ∷ h))
          (answers (built env a) (built-IsCallTo env a h).url_is)
      ∙ ground arith

  -- So a call for a user, or for a subscription, returns what the answer decodes to.
  pub get_user_by_token-answered :
      (us : UserService) (token : String) (h : History) (resp : HttpResponse)
      → env.new_request_error "GET" (get_request env us.info ("/v1/users:byToken/" ++ token)).url
        ≡ none
      → ((r : HttpRequest)
          → r.url ≡ (get_request env us.info ("/v1/users:byToken/" ++ token)).url
          → env.round_trip h r ≡ ok resp)
      → 200 ≤ resp.status_code
      → resp.status_code < 300
      → (h' : History) × (get_user_by_token env us token h ≡ (env.decode_user resp.body, h'))
  unfolding get_user_by_token decoded
  get_user_by_token-answered us token h resp fine answers low high = (
    _,
    ap (decoded env (λ x. env.decode_user x.body)) (
        execute-answered (get_request env us.info ("/v1/users:byToken/" ++ token)) h resp fine
          answers low high),
  )

  pub get_subscription-answered :
      (s : SubscriptionService) (name : String) (h : History) (resp : HttpResponse)
      → env.new_request_error "GET" (get_request env s.info ("/v1" ++ name)).url ≡ none
      → ((r : HttpRequest)
          → r.url ≡ (get_request env s.info ("/v1" ++ name)).url
          → env.round_trip h r ≡ ok resp)
      → 200 ≤ resp.status_code
      → resp.status_code < 300
      → (h' : History) × (get_subscription env s name h ≡ (env.decode_subscription resp.body, h'))
  unfolding get_subscription decoded
  get_subscription-answered s name h resp fine answers low high = (
    _,
    ap (decoded env (λ x. env.decode_subscription x.body))
        (execute-answered (get_request env s.info ("/v1" ++ name)) h resp fine answers low high),
  )

  pub pull-answered :
      (s : MessageService) (subscription : String) (n : ℕ) (h : History) (resp : HttpResponse)
      → env.new_request_error "POST" (pull_request env s subscription n true).url ≡ none
      → ((r : HttpRequest)
          → r.url ≡ (pull_request env s subscription n true).url
          → env.round_trip h r ≡ ok resp)
      → 200 ≤ resp.status_code
      → resp.status_code < 300
      → (h' : History) × (pull env s subscription n true h ≡ (env.decode_messages resp.body, h'))
  unfolding pull pull_request decoded
  pull-answered s subscription n h resp fine answers low high = (
    _,
    ap (decoded env (λ x. env.decode_messages x.body))
        (execute-answered (pull_request env s subscription n true) h resp fine answers low high),
  )

  pub ack-answered :
      (s : MessageService) (subscription ack_id : String) (h : History) (resp : HttpResponse)
      → env.new_request_error "POST" (ack_request env s subscription ack_id).url ≡ none
      → ((r : HttpRequest)
          → r.url ≡ (ack_request env s subscription ack_id).url
          → env.round_trip h r ≡ ok resp)
      → 200 ≤ resp.status_code
      → resp.status_code < 300
      → (h' : History) × (ack env s subscription ack_id h ≡ (none, h'))
  unfolding ack ack_request error_of
  ack-answered s subscription ack_id h resp fine answers low high = (
    _,
    ap (error_of env)
        (execute-answered (ack_request env s subscription ack_id) h resp fine answers low high),
  )
