-- ===== src/Grpc/Overlap/Threads.antt =====
-- api/v1/grpc/server.go: what a handler has tested, while other handlers write to the map.
use ams_push_server.Base.{
  ℕ, String, ◌≡◌, ◌≢◌, sym, ap, ◌∙◌, false, none, some, Dict, assign, delete, assign_ne, delete_ne,
  eqb, eqb_iff, arith, Bool-cases, ◌⊎◌, inl, inr,
}
use ams_push_server.Grpc.Overlap.{
  Thread, idle, adding, removing, concerns, System, set_thread, reading, taken,
}

-- No goroutine is about to change or to read the subscription.
abbrev pub IsExclusive : System → String → Type 0
IsExclusive s name = (j : ℕ) → concerns (s.threads j) ≢ some name

-- What a goroutine has tested still holds of the map.
abbrev pub Fits : Dict ℕ → Thread → Type 0
Fits m idle = Unit
Fits m (adding name w) = (m name ≡ none) × (w.sub.full_name ≡ name) × (w.cancelled ≡ false)
Fits m (removing name) = (k : ℕ) × (m name ≡ some k)
Fits m (reading name) = (k : ℕ) × (m name ≡ some k)
Fits m (taken name) = Unit

pub Fits-assign :
    (m : Dict ℕ) (name : String) (k : ℕ) (t : Thread)
    → concerns t ≢ some name
    → Fits m t
    → Fits (assign name k m) t
Fits-assign m name k idle ne f = tt
Fits-assign m name k (adding n w) ne f =
    (assign_ne name n k m (λ e. ne (ap some (sym e))) ∙ f.0, f.1, f.2)
Fits-assign m name k (removing n) ne f =
    (f.0, assign_ne name n k m (λ e. ne (ap some (sym e))) ∙ f.1)
Fits-assign m name k (reading n) ne f =
    (f.0, assign_ne name n k m (λ e. ne (ap some (sym e))) ∙ f.1)
Fits-assign m name k (taken n) ne f = tt

pub Fits-delete :
    (m : Dict ℕ) (name : String) (t : Thread)
    → concerns t ≢ some name
    → Fits m t
    → Fits (delete name m) t
Fits-delete m name idle ne f = tt
Fits-delete m name (adding n w) ne f =
    (delete_ne name n m (λ e. ne (ap some (sym e))) ∙ f.0, f.1, f.2)
Fits-delete m name (removing n) ne f = (f.0, delete_ne name n m (λ e. ne (ap some (sym e))) ∙ f.1)
Fits-delete m name (reading n) ne f = (f.0, delete_ne name n m (λ e. ne (ap some (sym e))) ∙ f.1)
Fits-delete m name (taken n) ne f = tt

pub Fits-set_thread :
    (m : Dict ℕ) (threads : ℕ → Thread) (i : ℕ) (t : Thread)
    → Fits m t
    → ((j : ℕ) → i ≢ j → Fits m (threads j))
    → (j : ℕ) → Fits m (set_thread i t threads j)
Fits-set_thread m threads i t f others j = elim (Bool-cases (eqb i j)) [
  | inl same ↦ rw same f
  | inr other ↦ rw other (others j λ e. ground (arith, eqb_iff i j))
]

module _ (threads : ℕ → Thread) (i : ℕ) (t : Thread) where
  concerns-set_thread :
      (j : ℕ) (name : String)
      → concerns (set_thread i t threads j) ≡ some name
      → ((i ≡ j) × (concerns t ≡ some name)) ⊎ (concerns (threads j) ≡ some name)
  concerns-set_thread j name e = elim (Bool-cases (eqb i j)) [
    | inl same ↦ inl ((eqb_iff i j).0 same, rw same at e)
    | inr other ↦ inr (rw other at e)
  ]

  -- Names stay apart if the new state of the goroutine concerns nothing that another one does.
  pub apart-set_thread :
      ((j k : ℕ) (name : String)
        → concerns (threads j) ≡ some name
        → concerns (threads k) ≡ some name
        → j ≡ k)
      → ((j : ℕ) (name : String) → concerns t ≡ some name → concerns (threads j) ≡ some name → ⊥)
      → (j k : ℕ) (name : String) → concerns (set_thread i t threads j) ≡ some name
      → concerns (set_thread i t threads k) ≡ some name
      → j ≡ k
  apart-set_thread apart alone j k name e f = elim (concerns-set_thread j name e) [
    | inl (a, p) ↦ elim (concerns-set_thread k name f) [
      | inl (b, q) ↦ sym a ∙ b
      | inr q ↦ absurd (alone k name p q)
    ]
    | inr p ↦ elim (concerns-set_thread k name f) [
      | inl (b, q) ↦ absurd (alone j name q p)
      | inr q ↦ apart j k name p q
    ]
  ]
