-- ===== src/Push/Loop/Sound.antt =====
-- push/worker.go: the state of the timer at each point of the loop, so that no receive from the
-- timer's channel waits for ever, and what the loop never changes.
use mathlib.Core.Path.{subst}
use ams_push_server.Base.{
  some_inj, String, ◌≡◌, inl, inr, refl, sym, ap, ◌∙◌, true, some, Result, arith, returns,
  go_bind-returns, returns_inj, Option-cases,
}
use ams_push_server.Consumers.{CancelableError}
use ams_push_server.Timer.{Timer, fire, drain}
use ams_push_server.RetryPolicies
use ams_push_server.RetryPolicies.{
  RetryPolicy, linear, slowstart, linear_retry_policy, slow_start_retry_policy,
  slow_start_initial_interval,
}
use ams_push_server.Push.Loop.Armed.{
  IsArmed, IsSpent, running, fire-IsArmed, fire-IsSpent, timer-with_timer, timer-reset,
  drained_IsSpent, stopped_timer-IsSpent, fire-pending,
}
use ams_push_server.Push.{Worker, Pushed}
use ams_push_server.Push.Keeps.{SameButError, push-keeps}
use ams_push_server.Push.Loop.{
  Loop, Phase, selecting, signalling, ended, timer_of, with_timer, tick, cancel, work, after_push,
  next_round, resume, finish, start, OwnStep, Step, own, ticks, cancels, works, resumes, finishes,
}

-- At the select statement the timer is armed; elsewhere it is spent.
abbrev pub Fits : Phase → Timer → Type 0
Fits selecting t = IsArmed t
Fits (signalling ce) t = IsSpent t
Fits ended t = IsSpent t

abbrev pub IsSound : {W : Type 0} → Loop W → Type 0
IsSound l = Fits l.phase (timer_of l)

fire-Fits : (ph : Phase) (t : Timer) → Fits ph t → Fits ph (fire t)
fire-Fits selecting t h = fire-IsArmed t h
fire-Fits (signalling ce) t h = fire-IsSpent t h
fire-Fits ended t h = fire-IsSpent t h

module _ {W : Type 0} where
  -- Once an armed timer has fired, the loop can go on.
  pub tick-pending : (l : Loop W) → IsArmed (timer_of l) → (timer_of (tick l)).pending ≡ true
  unfolding tick
  tick-pending l a =
      rw (timer-with_timer (fire (timer_of l)) l.worker.retry_policy) (fire-pending (timer_of l) a)

  next_round-IsSound :
      (w : Worker W) → IsSpent (RetryPolicies.timer w.retry_policy) → IsSound (next_round w)
  unfolding next_round
  next_round-IsSound w h =
      let (d, e) = timer-reset w.retry_policy w.push_err in
      running d (ap (λ t. t.active) e) (ap (λ t. t.pending) e ∙ h.empty)

  tick-IsSound : (l : Loop W) → IsSound l → IsSound (tick l)
  unfolding tick
  tick-IsSound l h =
      rw (timer-with_timer (fire (timer_of l)) l.worker.retry_policy)
        (fire-Fits l.phase (timer_of l) h)

  pub cancel-IsSound : (l : Loop W) → IsSound l → IsSound (cancel l)
  unfolding cancel
  cancel-IsSound l h = h

  after_push-IsSound :
      (p : Pushed W)
      → IsSpent (RetryPolicies.timer p.worker.retry_policy)
      → IsSound (after_push p).0
  unfolding after_push
  after_push-IsSound p h = elim (Option-cases p.signal) [
    | inl e ↦ rw e (next_round-IsSound p.worker h)
    | inr (ce, e) ↦ rw e h
  ]

  work-IsSound :
      (base64_decode : String → Result String String) (now : String) (l : Loop W) (world : W)
      {r : Loop W × W}
      → IsArmed (timer_of l)
      → (timer_of l).pending ≡ true
      → work base64_decode now l world ≡ returns r
      → IsSound r.0
  unfolding work
  work-IsSound base64_decode now l world {r} h q e =
      let (p, pushed, f) = go_bind-returns _ (λ p. returns (after_push p)) e in
      subst (λ x. IsSound x.0) (returns_inj f)
        (after_push-IsSound p (
          rw
            (
              (push-keeps base64_decode now _ world p pushed).policy_kept,
              timer-with_timer (drain (timer_of l)) l.worker.retry_policy,
            )
            (drained_IsSpent (timer_of l) h q)))

  pub finish-IsSound :
      (l : Loop W)
      → IsArmed (timer_of l)
      → (l' : Loop W) × (finish l ≡ some l') × IsSound l' × (l'.phase ≡ ended)
  unfolding finish
  finish-IsSound l h =
      let (t, e, spent) = stopped_timer-IsSpent (timer_of l) h in
      (
        record { worker = with_timer t l.worker; phase = ended },
        rw (e, finish) refl,
        rw (timer-with_timer t l.worker.retry_policy) spent,
        refl,
      )

module _ {W : Type 0} where
  pub at_phase : (l : Loop W) → l.phase ≡ selecting → IsSound l → IsArmed (timer_of l)
  at_phase l e h = subst (λ ph. Fits ph (timer_of l)) e h

  IsSpent-signalling :
      (l : Loop W) {ce : CancelableError}
      → l.phase ≡ signalling ce
      → IsSound l
      → IsSpent (timer_of l)
  IsSpent-signalling l e h = subst (λ ph. Fits ph (timer_of l)) e h

  after_push-keeps :
      (p : Pushed W)
      → ((after_push p).0.worker.sub ≡ p.worker.sub)
        × ((after_push p).0.worker.cancelled ≡ p.worker.cancelled)
  unfolding after_push
  after_push-keeps p = elim (Option-cases p.signal) [
    | inl e ↦ rw e (unfold next_round in (refl, refl))
    | inr (ce, e) ↦ rw e (refl, refl)
  ]

  work-keeps :
      (base64_decode : String → Result String String) (now : String) (l : Loop W) (world : W)
      {r : Loop W × W}
      → work base64_decode now l world ≡ returns r
      → (r.0.worker.sub ≡ l.worker.sub) × (r.0.worker.cancelled ≡ l.worker.cancelled)
  unfolding work
  work-keeps base64_decode now l world {r} e =
      let (p, pushed, f) = go_bind-returns _ (λ p. returns (after_push p)) e in
      let k : SameButError _ p.worker = push-keeps base64_decode now _ world p pushed in
      let a : (after_push p ≡ r) = returns_inj f in
      let (b, c) = after_push-keeps p in
      (
        sym (ap (λ x. x.0.worker.sub) a) ∙ b ∙ k.sub_kept,
        sym (ap (λ x. x.0.worker.cancelled) a) ∙ c ∙ k.cancelled_kept,
      )

  finish-keeps :
      (l : Loop W) {l' : Loop W}
      → finish l ≡ some l'
      → (l'.worker.sub ≡ l.worker.sub) × (l'.worker.cancelled ≡ l.worker.cancelled)
  unfolding finish
  finish-keeps l e = ground arith

module _ {W : Type 0} (base64_decode : String → Result String String) where
  -- If the timer is in the state that the loop's phase needs, armed at the select statement and
  -- spent elsewhere, then it is so after every step.
  pub Step-IsSound :
      {l : Loop W} {world : W} {l' : Loop W} {world' : W}
      → Step base64_decode l world l' world'
      → IsSound l
      → IsSound l'
  Step-IsSound {l} (own ticks) h = tick-IsSound l h
  Step-IsSound {l} cancels h = cancel-IsSound l h
  Step-IsSound {l} {world} (own (works now ph q e)) h =
      work-IsSound base64_decode now l world (at_phase l ph h) q e
  Step-IsSound {l} (resumes ce ph) h =
      unfold resume in next_round-IsSound l.worker (IsSpent-signalling l ph h)
  Step-IsSound {l} (own (finishes ph c e)) h =
      let (l'', e'', sound, _) = finish-IsSound l (at_phase l ph h) in
      subst IsSound (some_inj (sym e'' ∙ e)) sound

  -- A step of its own leaves the loop's subscription and context alone.
  pub OwnStep-keeps :
      {l : Loop W} {world : W} {l' : Loop W} {world' : W}
      → OwnStep base64_decode l world l' world'
      → (l'.worker.sub ≡ l.worker.sub) × (l'.worker.cancelled ≡ l.worker.cancelled)
  OwnStep-keeps {l} ticks = unfold tick in (refl, refl)
  OwnStep-keeps {l} {world} (works now ph q e) = work-keeps base64_decode now l world e
  OwnStep-keeps {l} (finishes ph c e) = finish-keeps l e

  -- What a loop may come to from another state, by its own steps and those of its surroundings.
  pub data Reach (l : Loop W) (world : W) : Loop W → W → Type 0 where
    here : Reach l world l world
    next :
        {l' : Loop W} {world' : W} {l'' : Loop W} {world'' : W}
        → Reach l world l' world'
        → Step base64_decode l' world' l'' world''
        → Reach l world l'' world''

  Reach-IsSound :
      {l : Loop W} {world : W} {l' : Loop W} {world' : W}
      → Reach l world l' world'
      → IsSound l
      → IsSound l'
  Reach-IsSound here h = h
  Reach-IsSound (next r st) h = Step-IsSound st (Reach-IsSound r h)

  -- However far a loop that was started with an armed timer has come, at its select statement the
  -- context's branch never blocks: if the timer could not be stopped, its value is there to
  -- receive, and the loop ends.
  pub finish_never_blocks :
      (w : Worker W) (world : W) (l : Loop W) (world' : W)
      → IsArmed (RetryPolicies.timer w.retry_policy)
      → Reach (start w) world l world'
      → l.phase ≡ selecting
      → (l' : Loop W) × (finish l ≡ some l') × (l'.phase ≡ ended)
  finish_never_blocks w world l world' armed r ph =
      let (l', e, _, q) = finish-IsSound l (at_phase l ph (Reach-IsSound r armed)) in (l', e, q)
