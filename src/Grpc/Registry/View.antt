-- ===== src/Grpc/Registry/View.antt =====
-- api/v1/grpc/server.go: the registry that a service stands for.
use mathlib.Core.Path.{fun_ext}
use ams_push_server.Base.{
  ℕ, String, ◌==◌, eq_iff, ◌≡◌, refl, sym, ap, ◌∙◌, arith, Option, none, some, Dict, assign, delete,
  eqb, eqb_iff, eqb_refl, Bool-cases, inl, inr,
}
use ams_push_server.Environment.{History}
use ams_push_server.Proto
use ams_push_server.Push.{Worker}
use ams_push_server.Push.Loop.{Loop, start, cancel}
use ams_push_server.Grpc.{PushService, update, add_worker, remove_worker}
use ams_push_server.Grpc.System.Coherence.{IsCoherent}
use ams_push_server.Grpc.Registry.{Registry}

abbrev sub_of : Option (Loop History) → Option Proto.Subscription
sub_of none = none
sub_of (some l) = some l.worker.sub

-- The subscription of the worker that the map holds for a name.
abbrev looked_up : (ℕ → Option (Loop History)) → Option ℕ → Option Proto.Subscription
looked_up loops none = none
looked_up loops (some i) = sub_of (loops i)

abbrev pub view : PushService → Registry
view ps name = looked_up ps.loops (ps.push_workers name)

pub view-none :
    (ps : PushService) (name : String) → ps.push_workers name ≡ none → view ps name ≡ none
view-none ps name free = ap (looked_up ps.loops) free

pub view-some :
    (ps : PushService) {name : String} {i : ℕ} {l : Loop History}
    → ps.push_workers name ≡ some i
    → ps.loops i ≡ some l
    → view ps name ≡ some l.worker.sub
view-some ps held at = ap (looked_up ps.loops) held ∙ ap sub_of at

-- A loop that is replaced by one for the same subscription is not seen.
looked_up-update :
    (loops : ℕ → Option (Loop History)) (i : ℕ) (l l' : Loop History)
    → loops i ≡ some l
    → l'.worker.sub ≡ l.worker.sub
    → (o : Option ℕ) → looked_up (update i l' loops) o ≡ looked_up loops o
looked_up-update loops i l l' at same none = refl
looked_up-update loops i l l' at same (some j) = elim (Bool-cases (eqb i j)) [
  | inl here ↦ rw here (ap some same ∙ sym (ap sub_of (ap loops (sym ((eqb_iff i j).0 here)) ∙ at)))
  | inr other ↦ rw other refl
]

pub view-replace :
    (ps : PushService) (i : ℕ) (l l' : Loop History)
    → ps.loops i ≡ some l
    → l'.worker.sub ≡ l.worker.sub
    → view (record ps { loops = update i l' ps.loops }) ≡ view ps
view-replace ps i l l' at same =
    fun_ext λ n. looked_up-update ps.loops i l l' at same (ps.push_workers n)

-- A new worker has a number that the map does not hold.
looked_up-fresh :
    (ps : PushService) (c : IsCoherent ps) (w : Worker History) (n : String) (o : Option ℕ)
    → ps.push_workers n ≡ o
    → looked_up (update ps.started (start w) ps.loops) o ≡ looked_up ps.loops o
looked_up-fresh ps c w n none held = refl
looked_up-fresh ps c w n (some j) held =
    let (l, at, _, _) = c.mapped n j held in
    ap sub_of (ground (arith, c.counted j l at, eqb_iff ps.started j))

pub view-add_worker :
    (ps : PushService) (name : String) (w : Worker History)
    → IsCoherent ps
    → view (add_worker ps name w) ≡ assign name w.sub (view ps)
unfolding add_worker
view-add_worker ps name w c = fun_ext λ n. elim (Bool-cases (name == n)) [
  | inl same ↦ rw (same, eqb_refl ps.started) refl
  | inr other ↦ rw other (looked_up-fresh ps c w n (ps.push_workers n) refl)
]

pub view-remove_worker :
    (ps : PushService) (name : String) (i : ℕ) (l : Loop History)
    → ps.loops i ≡ some l
    → view (remove_worker ps name (i, l)) ≡ delete name (view ps)
unfolding remove_worker
view-remove_worker ps name i l at = fun_ext λ n. elim (Bool-cases (name == n)) [
  | inl same ↦ rw same refl
  | inr other ↦
      rw other
        (looked_up-update ps.loops i l (cancel l) at (unfold cancel in refl) (ps.push_workers n))
]

-- Deleting a name that is not there changes nothing.
pub delete-free : {V : Type 0} (name : String) (m : Dict V) → m name ≡ none → delete name m ≡ m
delete-free name m free = fun_ext λ n. elim (Bool-cases (name == n)) [
  | inl same ↦ rw same (sym free ∙ ap m ((eq_iff name n).0 same))
  | inr other ↦ rw other refl
]
