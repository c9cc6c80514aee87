-- ===== src/Grpc/Load/MockLoad.antt =====
-- api/v1/grpc/server.go and pkg/ams/v1/mock.go: the loading of the subscriptions from the messaging
-- service of the tests.
use ams_push_server.Base.{
  String, ◌++◌, ◌≡◌, refl, ap, ◌∙◌, none, some, ok, returns, inl, inr, arith,
}
use ams_push_server.Environment.{
  Environment, History, HttpRequest, HttpResponse, Payload, user_info, ams_subscription,
  with_transport,
}
use ams_push_server.Ams.{AmsBaseInfo, get_request, get_user_by_token}
use ams_push_server.Ams.Types.{Subscription, UserInfo, is_push_enabled}
use ams_push_server.Ams.Mock.{
  json, ams_response, ams_round_trip, mock_user, mock_sub1, mock_sub4, mock_sub5, response,
}
use ams_push_server.Ams.Answered.{get_user_by_token-answered, get_subscription-answered}
use ams_push_server.Grpc.{PushService}
use ams_push_server.Grpc.System.Coherence.{IsCoherent}
use ams_push_server.Grpc.Load.{State, load_subscriptions, full_sub_name}
use ams_push_server.Grpc.Load.Retry.{AnswersAfter, at_once}
use ams_push_server.Grpc.Load.Loadable.{IsActive}
use ams_push_server.Grpc.Load.Loaded.{IsServed, load_subscriptions-IsActive}

module _ (env : Environment) (path_of : String → String) where
  -- The request for a path can be built, and the path can be read off its url.
  pub record IsReachable (info : AmsBaseInfo) (path : String) : Type 0 where
    pub buildable : env.new_request_error "GET" (env.url_string info.scheme info.host path) ≡ none
    pub kept : path_of (env.url_string info.scheme info.host path) ≡ path

  -- What is encoded as json is decoded to the same.
  abbrev pub IsStoredUser : UserInfo → Type 0
  IsStoredUser u =
      (b : String) × (env.marshal (user_info u) ≡ ok b)
      × (env.decode_user (record { content = b; read_error = none }) ≡ ok u)

  abbrev pub IsStored : Subscription → Type 0
  IsStored s =
      (b : String) × (env.marshal (ams_subscription s) ≡ ok b)
      × (env.decode_subscription (record { content = b; read_error = none }) ≡ ok s)

  -- The environment whose http client is that of the tests.
  module _ (nil_response : String) where
    abbrev pub mocked : Environment
    mocked = with_transport (ams_round_trip env path_of) nil_response env

    answers :
        (path u : String) (resp : HttpResponse)
        → path_of u ≡ path
        → ams_response env path_of path ≡ resp
        → (h : History) (r : HttpRequest) → r.url ≡ u
        → mocked.round_trip h r ≡ ok resp
    unfolding ams_round_trip
    answers path u resp kept e h r same =
        ap (λ x. ok (ams_response env path_of x)) (ap path_of same ∙ kept) ∙ ap ok e

    json-ok : {p : Payload} {b : String} → env.marshal p ≡ ok b → json env path_of p ≡ b
    unfolding json
    json-ok e = rw (e, json) refl

    user_response :
        {b : String}
        → env.marshal (user_info mock_user) ≡ ok b
        → ams_response env path_of "/v1/users:byToken/sometoken" ≡ response 200 b
    unfolding ams_response
    user_response e = ap (response 200) (json-ok e)

    sub1_response :
        {b : String}
        → env.marshal (ams_subscription mock_sub1) ≡ ok b
        → ams_response env path_of "/v1/projects/push1/subscriptions/sub1" ≡ response 200 b
    unfolding ams_response
    sub1_response e = ap (response 200) (json-ok e)

    sub4_response :
        {b : String}
        → env.marshal (ams_subscription mock_sub4) ≡ ok b
        → ams_response env path_of "/v1/projects/push2/subscriptions/sub4" ≡ response 200 b
    unfolding ams_response
    sub4_response e = ap (response 200) (json-ok e)

    sub5_response :
        {b : String}
        → env.marshal (ams_subscription mock_sub5) ≡ ok b
        → ams_response env path_of "/v1/projects/push2/subscriptions/sub5" ≡ response 200 b
    unfolding ams_response
    sub5_response e = ap (response 200) (json-ok e)

    module _ (ps : PushService) where
      user_found :
          (h : History)
          → IsReachable ps.ams_client.user_service.info "/v1/users:byToken/sometoken"
          → IsStoredUser mock_user
          → (h' : History) × (get_user_by_token mocked ps.ams_client.user_service "sometoken" h
              ≡ (ok mock_user, h'))
      unfolding get_request
      user_found h reach (b, e, d) =
          let (h', f) =
            get_user_by_token-answered mocked ps.ams_client.user_service "sometoken" h
              (response 200 b) reach.buildable
              (λ r same.
                answers "/v1/users:byToken/sometoken" _ (response 200 b) reach.kept
                  (user_response e) h r same)
              (omega arith) (omega arith) in
          (h', f ∙ ap (λ x. (x, h')) d)

      served :
          (name : String) (sub : Subscription) {b : String}
          → IsReachable ps.ams_client.subscription_service.info ("/v1" ++ name)
          → env.decode_subscription (record { content = b; read_error = none }) ≡ ok sub
          → ams_response env path_of ("/v1" ++ name) ≡ response 200 b
          → IsServed mocked ps.ams_client name sub
      unfolding get_request
      served name sub {b} reach d e = record {
        answer = λ h.
            let (h', f) =
              get_subscription-answered mocked ps.ams_client.subscription_service name h
                (response 200 b) reach.buildable
                (λ r same. answers ("/v1" ++ name) _ (response 200 b) reach.kept e h r same)
                (omega arith) (omega arith) in
            (h', f ∙ ap (λ x. (x, h')) d);
      }

      -- What the theorem takes of the standard library: the requests can be built and their paths are
      -- kept, the encoded values are decoded again, and the endpoint of the mock parses.
      pub record IsTestbed : Type 0 where
        pub user_path : IsReachable ps.ams_client.user_service.info "/v1/users:byToken/sometoken"
        pub sub1_path :
            IsReachable ps.ams_client.subscription_service.info
              "/v1/projects/push1/subscriptions/sub1"
        pub sub4_path :
            IsReachable ps.ams_client.subscription_service.info
              "/v1/projects/push2/subscriptions/sub4"
        pub sub5_path :
            IsReachable ps.ams_client.subscription_service.info
              "/v1/projects/push2/subscriptions/sub5"
        pub user_stored : IsStoredUser mock_user
        pub sub1_stored : IsStored mock_sub1
        pub sub4_stored : IsStored mock_sub4
        pub sub5_stored : IsStored mock_sub5
        pub endpoint : env.parse_request_uri_error "example.com:9999" ≡ none

      abbrev pub HoldsMocks : PushService → Type 0
      HoldsMocks ps' =
          IsActive ps' mock_sub1.full_name
          × IsActive ps' mock_sub4.full_name
          × IsActive ps' mock_sub5.full_name

      -- The loading from the messaging service of the tests, with the token of its user, ends at the
      -- first attempt without a panic, with the status ok and a coherent service, in which the
      -- subscriptions sub1, sub4 and sub5 are active, although the service answers with an error for
      -- errorsub and with a disabled push for sub3.
      pub mock_load :
          (h : History)
          → IsTestbed
          → ps.cfg.ams_token ≡ "sometoken"
          → IsCoherent ps
          → (s : State) × (load_subscriptions mocked 1 (ps, h) ≡ returns (some s))
            × (s.0.status ≡ "ok")
            × IsCoherent s.0
            × HoldsMocks s.0
      unfolding full_sub_name is_push_enabled
      mock_load h bed token coherent =
          let (h', found) = user_found h bed.user_path bed.user_stored in
          let now : AnswersAfter mocked ps.ams_client.user_service ps.cfg.ams_token mock_user h' 0
              h =
            at_once
              (ap (λ t. get_user_by_token mocked ps.ams_client.user_service t h) token ∙ found) in
          let (s, e, o, c, _, act) =
            load_subscriptions-IsActive mocked 1 0 ps mock_user h h' (omega arith) now in
          let (b1, e1, d1) = bed.sub1_stored in
          let (b4, e4, d4) = bed.sub4_stored in
          let (b5, e5, d5) = bed.sub5_stored in
          (
            s,
            e,
            o,
            c coherent,
            (
              act _ "sub1" mock_sub1 (inl refl) (inl refl)
                  (served "/projects/push1/subscriptions/sub1" mock_sub1 bed.sub1_path d1
                    (sub1_response e1))
                  (record {
                    enabled = refl;
                    known_policy = inl refl;
                    endpoint_fine = λ t. bed.endpoint;
                  }),
              act _ "sub4" mock_sub4 (inr (inl refl)) (inr (inl refl))
                  (served "/projects/push2/subscriptions/sub4" mock_sub4 bed.sub4_path d4
                    (sub4_response e4))
                  (record {
                    enabled = refl;
                    known_policy = inl refl;
                    endpoint_fine = λ t. bed.endpoint;
                  }),
              act _ "sub5" mock_sub5 (inr (inl refl)) (inr (inr (inl refl)))
                  (served "/projects/push2/subscriptions/sub5" mock_sub5 bed.sub5_path d5
                    (sub5_response e5))
                  (record { enabled = refl; known_policy = inl refl; endpoint_fine = λ t. cc }),
            ),
          )
