-- ===== src/Grpc/Load.antt =====
-- api/v1/grpc/server.go: `loadSubscriptions` and the start of the service. The search for the user
-- goes on until it succeeds; here it takes fuel, and `none` means that the fuel ran out.
pub mod Retry
pub mod Loadable
pub mod Loaded
pub mod MockLoad
use ams_push_server.Base.{
  ℕ, zero, suc, String, ◌++◌, ◌==◌, Bool, true, false, not, List, [], ◌∷◌, Option, none, some,
  Result, ok, err, Go, returns, panics, go_bind, if◌then◌else◌,
}
use ams_push_server.Environment.{Environment, History}
use ams_push_server.Config.{Config}
use ams_push_server.Proto
use ams_push_server.Ams
use ams_push_server.Ams.Types.{
  Subscription, Project, UserInfo, is_push_enabled, http_endpoint_push_config,
}
use ams_push_server.Grpc.{PushService, GrpcError, new_push_service, activate_subscription}

-- The service and the outside, which the loading changes.
abbrev pub State : Type 0
State = PushService × History

user_missing : PushService → PushService
user_missing ps = record ps { status = "Could not retrieve push worker user" }

-- The type of a push configuration: what is not http_endpoint is taken for mattermost.
push_type : String → Proto.PushType
push_type t = if t == http_endpoint_push_config then Proto.http_endpoint else Proto.mattermost

-- The request to activate a subscription of the messaging service.
unfoldable pub to_request : Subscription → Proto.ActivateSubscriptionRequest
unfolding push_type
to_request sub = record {
  subscription = some (record {
    full_name = sub.full_name;
    full_topic = sub.full_topic;
    push_config = some (record {
      push_endpoint = sub.push_cfg.pend;
      max_messages = sub.push_cfg.max_messages;
      retry_policy = some (record {
        type = sub.push_cfg.ret_pol.policy_type;
        period = sub.push_cfg.ret_pol.period;
      });
      authorization_header = sub.push_cfg.authorization_header.value;
      type = push_type sub.push_cfg.type;
      mattermost_url = sub.push_cfg.mattermost_url;
      mattermost_username = sub.push_cfg.mattermost_username;
      mattermost_channel = sub.push_cfg.mattermost_channel;
      base_64_decode = sub.push_cfg.base64_decode;
    });
  });
}

unfoldable pub full_sub_name : String → String → String
full_sub_name project sub_name = (("/projects/" ++ project) ++ "/subscriptions/") ++ sub_name

-- The loop's body after the call: `again` is the next round.
attempted :
    (State → Option (UserInfo × State))
    → PushService
    → Result String UserInfo × History
    → Option (UserInfo × State)
unfolding user_missing
attempted again ps (err e, h) = again (user_missing ps, h)
attempted again ps (ok u, h) = some (u, (ps, h))

module _ (env : Environment) where
  -- The loop `for !userFound`.
  unfoldable pub retrieve_user : ℕ → State → Option (UserInfo × State)
  unfolding attempted
  retrieve_user zero (ps, h) = none
  retrieve_user (suc fuel) (ps, h) =
      attempted (retrieve_user fuel) ps
        (Ams.get_user_by_token env ps.ams_client.user_service ps.cfg.ams_token h)

  activate_loaded : Subscription → State → Go State
  activate_loaded sub (ps, h) =
      go_bind (activate_subscription env ps (to_request sub)) λ (reply, ps'). returns (ps', h)

  -- What follows a call of GetSubscription.
  retrieved : PushService → Result String Subscription × History → Go State
  unfolding activate_loaded is_push_enabled
  retrieved ps (err e, h) = returns (ps, h)
  retrieved ps (ok sub, h) =
      if not (is_push_enabled sub) then returns (ps, h) else activate_loaded sub (ps, h)

  -- The body of the inner loop, for one name.
  unfoldable pub load_one : String → String → State → Go State
  unfolding retrieved full_sub_name
  load_one project sub_name (ps, h) = retrieved ps (
      Ams.get_subscription env ps.ams_client.subscription_service (full_sub_name project sub_name)
        h)

  unfoldable pub load_names : String → List String → State → Go State
  load_names project [] s = returns s
  load_names project (n ∷ ns) s = go_bind (load_one project n s) (load_names project ns)

  unfoldable pub load_projects : List Project → State → Go State
  unfolding load_names
  load_projects [] s = returns s
  load_projects (p ∷ ps) s = go_bind (load_names p.project p.subscriptions s) (load_projects ps)

  after_user : Option (UserInfo × State) → Go (Option State)
  unfolding load_projects
  after_user none = returns none
  after_user (some (u, (ps, h))) =
      go_bind (load_projects u.projects (record ps { status = "ok" }, h)) λ s. returns (some s)

  -- func (ps *PushService) loadSubscriptions()
  unfoldable pub load_subscriptions : ℕ → State → Go (Option State)
  unfolding retrieve_user after_user
  load_subscriptions fuel s = after_user (retrieve_user fuel s)

  -- func NewPushService(cfg *config.Config), with the loading that it starts.
  unfoldable pub start_service : ℕ → Config → History → Go (Option State)
  unfolding load_subscriptions new_push_service
  start_service fuel cfg h =
      if not cfg.skip_subs_load
      then load_subscriptions fuel (new_push_service env cfg, h)
      else returns (some (new_push_service env cfg, h))
