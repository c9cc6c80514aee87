-- ===== src/Grpc/System/Coherence.antt =====
-- api/v1/grpc/server.go: the map of workers agrees with the workers that run.
use ams_push_server.Base.{
  some_inj, ℕ, ◌<◌, String, eq_iff, ◌≡◌, ◌≢◌, inl, inr, refl, sym, ap, ◌∙◌, false, none, some,
  arith, eqb, eqb_iff, Bool-cases, eq-cases,
}
use ams_push_server.Environment.{Environment, History}
use ams_push_server.Config.{Config}
use ams_push_server.Push.{Worker}
use ams_push_server.Push.Loop.{Loop, start}
use ams_push_server.Grpc.{PushService, update, new_push_service, add_worker, remove_worker}

abbrev pub name_of : Loop History → String
name_of l = l.worker.sub.full_name

-- The map holds exactly the workers that were not stopped, each under its subscription's name.
pub record IsCoherent (ps : PushService) : Type 0 where
  -- what the map holds is a worker of that name that was not stopped
  pub mapped :
      (name : String) (i : ℕ)
      → ps.push_workers name ≡ some i
      → (l : Loop History) × (ps.loops i ≡ some l)
        × (l.worker.cancelled ≡ false)
        × (name_of l ≡ name)
  -- a worker that was not stopped is in the map
  pub live :
      (i : ℕ) (l : Loop History)
      → ps.loops i ≡ some l
      → l.worker.cancelled ≡ false
      → ps.push_workers (name_of l) ≡ some i
  -- the numbers of workers are below the counter
  pub counted : (i : ℕ) (l : Loop History) → ps.loops i ≡ some l → i < ps.started

pub new_push_service-IsCoherent :
    (env : Environment) (cfg : Config) → IsCoherent (new_push_service env cfg)
unfolding new_push_service
new_push_service-IsCoherent env cfg = record {
  mapped = λ name i e. cc;
  live = λ i l e c. cc;
  counted = λ i l e. cc;
}

-- Adding a worker under a name that the map does not hold.
pub add_worker-IsCoherent :
    (ps : PushService) (name : String) (w : Worker History)
    → IsCoherent ps
    → ps.push_workers name ≡ none
    → w.sub.full_name ≡ name
    → w.cancelled ≡ false
    → IsCoherent (add_worker ps name w)
unfolding add_worker
add_worker-IsCoherent ps name w c free named fresh = record {
  mapped = λ n i e. elim (eq-cases name n) [
    | inl same ↦
        let at : ps.started ≡ i = ground (arith, eq_iff name n) in
        (start w, ground (arith, eqb_iff ps.started i), fresh, named ∙ same)
    | inr (t, ne) ↦
        let e' : ps.push_workers n ≡ some i = ground (arith, eq_iff name n) in
        let (l, el, k, nm) = c.mapped n i e' in
        (l, ground (arith, c.counted i l el, eqb_iff ps.started i), k, nm)
  ];
  live = λ i l e k. elim (Bool-cases (eqb ps.started i)) [
    | inl same ↦ ground (arith, eq_iff name l.worker.sub.full_name, eqb_iff ps.started i)
    | inr other ↦
        let el : ps.loops i ≡ some l = ground (arith, eqb_iff ps.started i) in
        ground (arith, c.live i l el k, eq_iff name l.worker.sub.full_name)
  ];
  counted = λ i l e. ground (arith, c.counted i l, eqb_iff ps.started i);
}

-- Stopping the worker that the map holds under a name, and deleting the name.
pub remove_worker-IsCoherent :
    (ps : PushService) (name : String) (i : ℕ) (l : Loop History)
    → IsCoherent ps
    → ps.push_workers name ≡ some i
    → ps.loops i ≡ some l
    → IsCoherent (remove_worker ps name (i, l))
unfolding remove_worker
remove_worker-IsCoherent ps name i l c held at = record {
  mapped = λ n j e.
      let e' : (name ≢ n) × (ps.push_workers n ≡ some j) = ground (arith, eq_iff name n) in
      let (l', el, k, nm) = c.mapped n j e'.1 in
      let (l'', el'', k'', nm'') = c.mapped name i held in
      let apart : i ≢ j =
        λ same. e'.0 (sym nm'' ∙ ap name_of (some_inj (sym el'' ∙ ap ps.loops same ∙ el)) ∙ nm) in
      (l', ground (arith, eqb_iff i j), k, nm);
  live = λ j l' e k.
      let apart : i ≢ j = λ same. ground (arith, eqb_iff i j) in
      let el : ps.loops j ≡ some l' = ground (arith, eqb_iff i j) in
      ground (arith, c.live j l' el k, eq_iff name l'.worker.sub.full_name);
  counted = λ j l' e. ground (arith, c.counted j l', c.counted i l at, eqb_iff i j);
}

-- Replacing a loop by one with the same subscription and context.
pub replace_loop-IsCoherent :
    (ps : PushService) (i : ℕ) (l l' : Loop History)
    → IsCoherent ps
    → ps.loops i ≡ some l
    → l'.worker.sub ≡ l.worker.sub
    → l'.worker.cancelled ≡ l.worker.cancelled
    → IsCoherent (record ps { loops = update i l' ps.loops })
replace_loop-IsCoherent ps i l l' c at same_sub same_context = record {
  mapped = λ n j e.
      let (k, ek, uk, nk) = c.mapped n j e in
      elim (Bool-cases (eqb i j)) [
        | inl same ↦
            let kl : k ≡ l = some_inj (sym ek ∙ ap ps.loops (sym ((eqb_iff i j).0 same)) ∙ at) in
            (
              l',
              rw same refl,
              same_context ∙ ap (λ x. x.worker.cancelled) (sym kl) ∙ uk,
              ap (λ x. x.full_name) same_sub ∙ ap name_of (sym kl) ∙ nk,
            )
        | inr other ↦ (k, rw other ek, uk, nk)
      ];
  live = λ j k e u. elim (Bool-cases (eqb i j)) [
    | inl same ↦
        let kl : l' ≡ k = some_inj (ground (arith, eqb_iff i j)) in
        let held : ps.push_workers (name_of l) ≡ some i =
          c.live i l at (sym same_context ∙ ap (λ x. x.worker.cancelled) kl ∙ u) in
        ap ps.push_workers (ap name_of (sym kl) ∙ ap (λ x. x.full_name) same_sub)
        ∙ held
        ∙ ap some ((eqb_iff i j).0 same)
    | inr other ↦ c.live j k (ground (arith, eqb_iff i j)) u
  ];
  counted = λ j k e. ground (arith, c.counted j k, c.counted i l at, eqb_iff i j);
}
