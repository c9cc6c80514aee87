-- ===== src/Senders/Configured.antt =====
-- senders/sender.go: what the sender of a configuration does, by the configuration alone.
use mathlib.Core.Path.{subst}
use ams_push_server.Base.{
  ℕ, String, ◌≡◌, inl, inr, Bool, true, false, Option, none, some, Result, ok, eqb, returns,
  Bool-cases, some_inj, none_ne, if◌then◌else◌,
}
use ams_push_server.Environment.{Environment, History}
use ams_push_server.Proto
use ams_push_server.Ams.Calls.{Tried}
use ams_push_server.Senders.Types.{PushMsgs, PushMessageFormat}
use ams_push_server.Senders.{
  new, new_http_sender, new_mattermost_sender, Sender, HttpSender, MattermostSender, http_sender,
  mattermost_sender,
}
use ams_push_server.Senders.Posting.{IsPosted, is_http_success}
use ams_push_server.Senders.Delivery.{
  http_encodes, mattermost_encodes, send_http-tries, send_http-delivers, send_mattermost-tries,
  send_mattermost-delivers,
}

-- Whether the destination is an http endpoint, and not mattermost.
abbrev is_http : Proto.PushConfig → Bool
is_http cfg = eqb cfg.type Proto.http_endpoint

abbrev pub destination_of : Proto.PushConfig → String
destination_of cfg = if is_http cfg then cfg.push_endpoint else cfg.mattermost_url

-- The status codes of an answer that is a delivery: 200, 201, 204 and 102 for an http endpoint, and 200
-- alone for mattermost.
abbrev pub is_success_for : Proto.PushConfig → ℕ → Bool
is_success_for cfg = if is_http cfg then is_http_success else (λ code. eqb code 200)

abbrev http_of : Proto.PushConfig → HttpSender
http_of cfg = record { endpoint = cfg.push_endpoint; auth_z_header = cfg.authorization_header }

abbrev mattermost_of : Proto.PushConfig → MattermostSender
mattermost_of cfg = record {
  webhook_url = cfg.mattermost_url;
  username = cfg.mattermost_username;
  channel = cfg.mattermost_channel;
}

-- The body for some messages.
abbrev pub body_for :
    Environment → Proto.PushConfig → PushMsgs → PushMessageFormat → Result String String
body_for env cfg msgs format =
    if is_http cfg
    then http_encodes env (http_of cfg) msgs format
    else mattermost_encodes env (mattermost_of cfg) msgs format

-- A sender tries at most one request, to the destination of the configuration, and reports no error
-- only if that request, with the messages as its body, was answered with the status of a delivery.
pub record IsConfigured (env : Environment) (cfg : Proto.PushConfig) (s : Sender History)
    : Type 0 where
  pub tries :
      (msgs : PushMsgs) (format : PushMessageFormat) (h : History) (r : Option String × History)
      → s.send msgs format h ≡ returns r
      → Tried "POST" (destination_of cfg) h r.1
  pub delivers :
      (msgs : PushMsgs) (format : PushMessageFormat) (h h' : History)
      → s.send msgs format h ≡ returns (none, h')
      → (b : String) × (body_for env cfg msgs format ≡ ok b)
        × IsPosted env (destination_of cfg) b (is_success_for cfg) h h'

module _ (env : Environment) (cfg : Proto.PushConfig) where
  http-IsConfigured : is_http cfg ≡ true → IsConfigured env cfg (http_sender env (http_of cfg))
  http-IsConfigured t = record {
    tries = λ msgs format h r e. rw t (send_http-tries env (http_of cfg) msgs format h r e);
    delivers = λ msgs format h h' e. rw t (send_http-delivers env (http_of cfg) msgs format h h' e);
  }

  mattermost-IsConfigured :
      is_http cfg ≡ false → IsConfigured env cfg (mattermost_sender env (mattermost_of cfg))
  mattermost-IsConfigured f = record {
    tries =
        λ msgs format h r e. rw f (send_mattermost-tries env (mattermost_of cfg) msgs format h r e);
    delivers = λ msgs format h h' e.
        rw f (send_mattermost-delivers env (mattermost_of cfg) msgs format h h' e);
  }

  -- Every sender that the factory makes is one for its configuration.
  pub new-IsConfigured : {s : Sender History} → new env cfg ≡ some s → IsConfigured env cfg s
  unfolding new new_http_sender new_mattermost_sender
  new-IsConfigured e = elim (Bool-cases (is_http cfg)) [
    | inl t ↦ subst (IsConfigured env cfg) (some_inj (rw t at e)) (http-IsConfigured t)
    | inr f ↦ elim (Bool-cases (eqb cfg.type Proto.mattermost)) [
      | inl t ↦ subst (IsConfigured env cfg) (some_inj (rw (f, t) at e)) (mattermost-IsConfigured f)
      | inr g ↦ absurd (none_ne (rw (f, g) at e))
    ]
  ]
