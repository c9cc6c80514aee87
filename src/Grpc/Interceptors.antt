-- ===== src/Grpc/Interceptors.antt =====
-- api/v1/grpc/interceptors.go and the chain of `NewGRPCServer`: what stands before the handlers. The
-- interceptors of the logging library only pass a call on, and are left out.
pub mod Access
pub mod Gate
use ams_push_server.Base.{
  String, ◌==◌, Bool, true, false, not, ◌&&◌, List, [], ◌∷◌, Option, none, some, Result, ok, err,
  Go, returns, panics, go_bind, if◌then◌else◌,
}
use ams_push_server.Environment.{Environment}
use ams_push_server.Proto
use ams_push_server.Grpc.{
  PushService, GrpcError, internal, unauthenticated, service_unavailable, status,
  subscription_status, activate_subscription, deactivate_subscription,
}

-- tls.State.PeerCertificates[i].Subject.CommonName
pub record Certificate : Type 0 where
  pub common_name : String

-- p.AuthInfo: a credentials.TLSInfo, whose AuthType() is "tls", or another type with its own.
pub data AuthInfo : Type 0 where
  tls_info : List Certificate → AuthInfo
  other_info : String → AuthInfo

abbrev pub auth_type : AuthInfo → String
auth_type (tls_info certs) = "tls"
auth_type (other_info t) = t

pub record Peer : Type 0 where
  pub auth_info : Option AuthInfo

-- peer.FromContext(ctx): nothing, or a pointer that may be nil.
abbrev pub Context : Type 0
Context = Option (Option Peer)

-- A handler, over the service that it changes.
abbrev pub Handler : Type 0 → Type 0
Handler A = PushService → Go (Result GrpcError A × PushService)

-- The loop over the access control list.
unfoldable pub in_acl : List String → String → Bool
in_acl [] name = false
in_acl (c ∷ cs) name = let rest = in_acl cs name in if c == name then true else rest

-- func StatusInterceptor(srv *PushService)
unfoldable pub status_interceptor : {A : Type 0} → String → Handler A → Handler A
status_interceptor full_method handler ps =
    if not (full_method == "/PushService/Status") && not (ps.status == "ok")
    then returns (err (record { code = internal; message = service_unavailable }), ps)
    else handler ps

module _ {A : Type 0} (acl : List String) (handler : Handler A) where
  -- return nil, status.Error(codes.Unauthenticated, "UNAUTHORISED")
  unfoldable pub unauthorised : Handler A
  unauthorised ps = returns (err (record { code = unauthenticated; message = "UNAUTHORISED" }), ps)

  check_certificates : List Certificate → Handler A
  unfolding unauthorised
  check_certificates [] ps = unauthorised ps
  check_certificates (c ∷ cs) ps = if in_acl acl c.common_name then handler ps else unauthorised ps

  -- tls := p.AuthInfo.(credentials.TLSInfo) panics for another type.
  check_tls : AuthInfo → Handler A
  unfolding check_certificates
  check_tls (tls_info certs) ps = check_certificates certs ps
  check_tls (other_info t) ps = panics

  check_auth_info : Option AuthInfo → Handler A
  unfolding check_tls
  check_auth_info none ps = unauthorised ps
  check_auth_info (some info) ps =
      if auth_type info == "tls" then check_tls info ps else unauthorised ps

  check_peer : Context → Handler A
  unfolding check_auth_info
  check_peer none ps = unauthorised ps
  check_peer (some none) ps = unauthorised ps
  check_peer (some (some p)) ps = check_auth_info p.auth_info ps

  -- func AuthInterceptor(acl []string, tlsEnabled bool)
  unfoldable pub auth_interceptor : Bool → Context → Handler A
  unfolding check_peer
  auth_interceptor tls_enabled ctx ps = if not tls_enabled then handler ps else check_peer ctx ps

-- A call of the service, by its method.
pub data Call : Type 0 where
  status_call : Call
  subscription_status_call : Proto.SubscriptionStatusRequest → Call
  activate_call : Proto.ActivateSubscriptionRequest → Call
  deactivate_call : Proto.DeactivateSubscriptionRequest → Call

-- info.FullMethod, as ams.pb.go registers the methods.
unfoldable pub full_method : Call → String
full_method status_call = "/PushService/Status"
full_method (subscription_status_call r) = "/PushService/SubscriptionStatus"
full_method (activate_call r) = "/PushService/ActivateSubscription"
full_method (deactivate_call r) = "/PushService/DeactivateSubscription"

-- The text of a reply; that of a status reply is empty.
status_reply : Result GrpcError (Unit {0}) → Result GrpcError String
status_reply (ok u) = ok ""
status_reply (err e) = err e

unfoldable pub handle : Environment → Call → Handler String
unfolding status_reply status subscription_status deactivate_subscription activate_subscription
handle env status_call ps = returns (status_reply (status ps), ps)
handle env (subscription_status_call r) ps =
    go_bind (subscription_status ps r) λ reply. returns (reply, ps)
handle env (activate_call r) ps = activate_subscription env ps r
handle env (deactivate_call r) ps = deactivate_subscription ps r

-- grpc.ChainUnaryInterceptor(..., AuthInterceptor(cfg.ACL, cfg.TLSEnabled), StatusInterceptor(s)).
unfoldable pub serve : Environment → Context → Call → Handler String
unfolding auth_interceptor status_interceptor handle
serve env ctx call ps =
    auth_interceptor ps.cfg.acl (status_interceptor (full_method call) (handle env call))
      ps.cfg.tls_enabled ctx ps
