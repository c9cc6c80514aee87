-- ===== src/Grpc/System/Ending.antt =====
-- api/v1/grpc/server.go and push/worker.go: the loop of a worker that was stopped.
use ams_push_server.Base.{
  ℕ, String, ◌≡◌, inl, inr, refl, sym, ap, ◌∙◌, true, none, some, Option, some_inj, arith, eqb,
  eqb_iff, eqb_refl, Bool-cases, Option-cases,
}
use ams_push_server.Environment.{Environment, History}
use ams_push_server.Config.{Config}
use ams_push_server.Consumers.{CancelableError}
use ams_push_server.Push.Loop.{
  Loop, Phase, selecting, signalling, ended, finishes, resumes, resume, next_round, cancel,
}
use ams_push_server.Push.Loop.Sound.{
  IsSound, at_phase, finish-IsSound, Step-IsSound, cancel-IsSound,
}
use ams_push_server.Grpc.{PushService}
use ams_push_server.Grpc.Stopping.{
  IsDeactivation, was_inactive, stopped, stop_subscription-IsDeactivation,
}
use ams_push_server.Grpc.System.{System, receive, runs, receives, handles, Reach, here, next}
use ams_push_server.Grpc.System.Coherence.{IsCoherent, new_push_service-IsCoherent}
use ams_push_server.Grpc.System.Reachable.{initial, Reach-IsCoherent, Reach-trans}
use ams_push_server.Grpc.System.Wired.{started_worker-IsWired}

-- Loop `i` is past its end.
abbrev pub HasEnded : System → ℕ → Type 0
HasEnded s i = (l : Loop History) × (s.service.loops i ≡ some l) × (l.phase ≡ ended)

-- Worker `i` was stopped, and its timer is in the state that its loop needs.
pub record IsStopping (s : System) (i : ℕ) (ph : Phase) : Type 0 where
  pub loop : Loop History
  pub at : s.service.loops i ≡ some loop
  pub phase_is : loop.phase ≡ ph
  pub cancelled : loop.worker.cancelled ≡ true
  pub sound : IsSound loop

module _ (env : Environment) (i : ℕ) where
  selecting_ends :
      (s : System) → IsStopping s i selecting → (t : System) × Reach env s t × HasEnded t i
  selecting_ends s k =
      let (l', e, _, over) = finish-IsSound k.loop (at_phase k.loop k.phase_is k.sound) in
      (
        _,
        next here (runs i k.loop k.at (finishes k.phase_is k.cancelled e)),
        (l', rw (eqb_refl i) refl, over),
      )

  -- The reader takes the error that the worker waits to write.
  signalling_ends :
      (s : System) {ce : CancelableError}
      → s.handling ≡ none
      → IsStopping s i (signalling ce)
      → (t : System) × Reach env s t × HasEnded t i
  unfolding resume next_round
  signalling_ends s {ce} free k =
      let (t, r, d) = selecting_ends (receive i k.loop ce s) (record {
        loop = resume k.loop;
        at = rw (eqb_refl i) refl;
        phase_is = refl;
        cancelled = k.cancelled;
        sound =
            Step-IsSound env.base64_decode {l = k.loop} {world = s.world} (resumes ce k.phase_is)
              k.sound;
      }) in
      (t, Reach-trans (next here (receives i k.loop ce free k.at k.phase_is)) r, d)

  free_ends :
      (s : System) (ph : Phase)
      → s.handling ≡ none
      → IsStopping s i ph
      → (t : System) × Reach env s t × HasEnded t i
  free_ends s selecting free k = selecting_ends s k
  free_ends s (signalling ce) free k = signalling_ends s free k
  free_ends s ended free k = (s, here, (k.loop, k.at, k.phase_is))

  -- Stopping another subscription, or the same again, leaves the worker stopped.
  IsDeactivation-IsStopping :
      (s : System) {ph : Phase} {name : String} {x : Option String × PushService}
      → IsDeactivation s.service name x
      → IsStopping s i ph
      → IsStopping (record s { service = x.1; handling = none }) i ph
  unfolding cancel
  IsDeactivation-IsStopping s (was_inactive t e) k = record {
    loop = k.loop;
    at = k.at;
    phase_is = k.phase_is;
    cancelled = k.cancelled;
    sound = k.sound;
  }
  IsDeactivation-IsStopping s (stopped j l ps' held at st same) k = elim (Bool-cases (eqb j i)) [
    | inl e ↦
        let here_too = (eqb_iff j i).0 e in
        let kl : k.loop ≡ l = some_inj (sym k.at ∙ ap s.service.loops (sym here_too) ∙ at) in
        record {
          loop = cancel k.loop;
          at = ap ps'.loops (sym here_too) ∙ st.cancelled ∙ ap (λ x. some (cancel x)) (sym kl);
          phase_is = k.phase_is;
          cancelled = refl;
          sound = cancel-IsSound k.loop k.sound;
        }
    | inr other ↦ record {
      loop = k.loop;
      at = st.other_loops i (λ e. ground (arith, eqb_iff j i)) ∙ k.at;
      phase_is = k.phase_is;
      cancelled = k.cancelled;
      sound = k.sound;
    }
  ]

  stopping_ends :
      (s : System) {ph : Phase}
      → IsCoherent s.service
      → IsStopping s i ph
      → (t : System) × Reach env s t × HasEnded t i
  stopping_ends s {ph} c k = elim (Option-cases s.handling) [
    | inl free ↦ free_ends s ph free k
    | inr (ce, taken) ↦
        let (x, e, d) = stop_subscription-IsDeactivation s.service c ce.resource in
        let handled : System = record s { service = x.1; handling = none } in
        let (t, r, over) = free_ends handled ph refl (IsDeactivation-IsStopping s d k) in
        (t, Reach-trans (next here (handles ce taken e)) r, over)
  ]

-- However the service, from its start on, came to its state, the loop of every worker that was
-- stopped may still end: if the worker waits to write its error, the reader of the channel is freed
-- and takes it, and at the select statement the context's branch does not block on the timer.
pub stopped_worker_ends :
    (env : Environment) (cfg : Config) (h : History) (s : System) (i : ℕ) (l : Loop History)
    → Reach env (initial env cfg h) s
    → s.service.loops i ≡ some l
    → l.worker.cancelled ≡ true
    → (t : System) × Reach env s t × HasEnded t i
stopped_worker_ends env cfg h s i l reached at over =
    let start = new_push_service-IsCoherent env cfg in
    let w = started_worker-IsWired env cfg h s i l reached at in
    stopping_ends env i s (Reach-IsCoherent reached start)
      (record { loop = l; at = at; phase_is = refl; cancelled = over; sound = w.sound })
