-- ===== src/Push/Stages/Advance.antt =====
-- push/worker.go: each stage of a cycle gives what the next one builds on.
use mathlib.Core.Path.{subst}
use ams_push_server.Base.{
  String, ◌≡◌, refl, sym, ap, ◌∙◌, Option, none, some, Option-cases, inl, inr, Result, ok, err,
  arith, returns, go_bind, go_bind-returns, returns_inj, deref, deref-returns,
}
use ams_push_server.Environment.{Environment, History}
use ams_push_server.Proto
use ams_push_server.Ams.Types.{ReceivedMessage, ReceivedMessagesList, last}
use ams_push_server.Ams.Growth.{Extends, same, Tried-Extends}
use ams_push_server.Consumers.{consume}
use ams_push_server.Consumers.Laws.{consume-IsPulled, consume-Tried, ack-Tried_lem}
use ams_push_server.Senders.{Sender}
use ams_push_server.Senders.Types.{determine_message_format}
use ams_push_server.Push.{Worker, Pushed, push_msgs_of, failure, consume_failed, acknowledged}
use ams_push_server.Push.Keeps.{SameButError, consume_failed-keeps, acknowledged-keeps, error_set}
use ams_push_server.Push.Loop.{after_push, next_round}
use ams_push_server.Push.Stages.{Staged, settled, fetch, fetched_as, hand_over, sent_as, confirm}
use ams_push_server.Push.Stages.Route.{Route, IsFetched, IsServing, rerouted}

module _ (env : Environment) where
  -- What a stage leaves that ended with `x`, with the history `h` before.
  abbrev pub Advances : History → Staged History × History → Type 0
  Advances h x = IsServing env x.0 x.1 × Extends h x.1

  kept_route : {w w' : Worker History} → Route env w → SameButError w w' → Route env w'
  kept_route r k = record {
    ahc = r.ahc;
    cfg = r.cfg;
    consumer_is = k.consumer_kept ∙ r.consumer_is;
    named = r.named ∙ ap (λ s. s.full_name) (sym k.sub_kept);
    config_is = ap (λ s. s.push_config) k.sub_kept ∙ r.config_is;
    delivering = λ s e. r.delivering s (sym k.sender_kept ∙ e);
  }

  -- A cycle may end with any error, after any requests.
  settled-Advances :
      {w : Worker History} (r : Route env w) (p : Pushed History) (h : History)
      → SameButError w p.worker
      → Extends h p.world
      → Advances h (settled p)
  unfolding settled after_push next_round
  settled-Advances r p h k e = elim (Option-cases p.signal) [
    | inl q ↦ rw q (record { route = rerouted env _ _ _ (kept_route r k); progress = tt }, e)
    | inr (ce, q) ↦ rw q (record { route = kept_route r k; progress = tt }, e)
  ]

  module _ (now : String) {w : Worker History} (r : Route env w) where
    consume_failed-world :
        (h : History) (error : String) → (consume_failed env.base64_decode now w h error).world ≡ h
    unfolding consume_failed
    consume_failed-world h error = ground arith

    fetched_as-Advances :
        (h : History) (x : Result String ReceivedMessagesList × History)
        → consume env r.ahc r.cfg.max_messages h ≡ x
        → Advances h (fetched_as env.base64_decode now w x)
    unfolding fetched_as
    fetched_as-Advances h (err error, h1) e =
        settled-Advances r (consume_failed env.base64_decode now w h1 error) h
          (consume_failed-keeps env.base64_decode now w h1 error)
          (subst (Extends h) (ap (λ y. y.1) e ∙ sym (consume_failed-world h1 error))
            (Tried-Extends (consume-Tried env r.ahc r.cfg.max_messages h)))
    fetched_as-Advances h (ok rml, h1) e = (
      record {
        route = r;
        progress = record {
          before = h;
          after = h1;
          pulled = (consume-IsPulled env r.ahc r.cfg.max_messages h h1 rml e).0;
          since = same;
        };
      },
      subst (Extends h) (ap (λ y. y.1) e)
          (Tried-Extends (consume-Tried env r.ahc r.cfg.max_messages h)),
    )

    pub fetch-Advances :
        (h : History) {x : Staged History × History}
        → fetch env.base64_decode now w h ≡ returns x
        → Advances h x
    unfolding fetch
    fetch-Advances h e =
        let rewritten =
          ap
            (λ o. go_bind (deref o) λ (cfg : Proto.PushConfig).
              returns (fetched_as env.base64_decode now w (w.consumer.consume cfg.max_messages h)))
            r.config_is
          ∙ ap (λ c. returns (fetched_as env.base64_decode now w (c.consume r.cfg.max_messages h)))
              r.consumer_is in
        subst (Advances h) (returns_inj (sym rewritten ∙ e)) (fetched_as-Advances h _ refl)

    module _ (rml : ReceivedMessagesList) (h : History) (got : IsFetched env w r rml h)
        (s : Sender History) (s_is : w.sender ≡ some s) where
      sent_as-Advances :
          (reply : Option String × History) {x : Staged History × History}
          → s.send
              (push_msgs_of env.base64_decode w r.cfg rml)
              (determine_message_format r.cfg.max_messages)
              h
            ≡ returns reply
          → sent_as env.base64_decode now w rml reply ≡ returns x
          → Advances h x
      unfolding sent_as
      sent_as-Advances (some error, h1) out e = subst (Advances h) (returns_inj e) (
          settled-Advances r
            (record {
              worker = record w { push_err = failure now "Could not send message" error };
              world = h1;
              signal = none;
            })
            h (error_set env.base64_decode now w)
            (Tried-Extends ((r.delivering s s_is).tries _ _ h _ out)))
      sent_as-Advances (none, h1) out e =
          let d = r.delivering s s_is in
          let (rm, l, f) = go_bind-returns (last rml) _ e in
          let (body, encoded, posted) = d.delivers _ _ h h1 out in
          subst (Advances h) (returns_inj f) (
            record {
              route = r;
              progress = record {
                rml = rml;
                before = h;
                fetched_by = got;
                last_is = l;
                body = body;
                encoded = encoded;
                after = h1;
                posted = posted;
                since = same;
              };
            },
            Tried-Extends (d.tries _ _ h _ out),
          )

    pub hand_over-Advances :
        (rml : ReceivedMessagesList) (h : History) {x : Staged History × History}
        → IsFetched env w r rml h
        → hand_over env.base64_decode now rml w h ≡ returns x
        → Advances h x
    unfolding hand_over
    hand_over-Advances rml h got e =
        let rewritten =
          ap
            (λ o. go_bind (deref o) λ (cfg : Proto.PushConfig). go_bind (deref w.sender) λ s.
              go_bind
                (s.send (push_msgs_of env.base64_decode w cfg rml)
                  (determine_message_format cfg.max_messages) h)
                (sent_as env.base64_decode now w rml))
            r.config_is in
        let (s, s_is, f) = go_bind-returns (deref w.sender) _ (sym rewritten ∙ e) in
        let (reply, out, g) = go_bind-returns _ (sent_as env.base64_decode now w rml) f in
        sent_as-Advances rml h got s (deref-returns w.sender s_is) reply out g

    acknowledged-world :
        (a : Option String × History) → (acknowledged env.base64_decode now w a).world ≡ a.1
    unfolding acknowledged
    acknowledged-world (some e, h) = refl
    acknowledged-world (none, h) = refl

    pub confirm-Advances :
        (rm : ReceivedMessage) (h : History) → Advances h (confirm env.base64_decode now rm w h)
    unfolding confirm
    confirm-Advances rm h =
        settled-Advances r _ h
          (acknowledged-keeps env.base64_decode now w (w.consumer.ack rm.ack_id h))
          (subst (Extends h)
            (ap (λ c. (c.ack rm.ack_id h).1) (sym r.consumer_is)
              ∙ sym (acknowledged-world (w.consumer.ack rm.ack_id h)))
            (Tried-Extends (ack-Tried_lem env r.ahc rm.ack_id h)))
