-- ===== src/Base/Results.antt =====
-- Go's outcomes: a value with an error beside it, and a run-time panic.
use mathlib.Core.Path.{◌≡◌, refl, ap}
use mathlib.Core.Option.{Option, none, some}

-- A function that returns a value or an error of type `E`.
pub data Result {ℓ} (E : Type 0) (A : Type ℓ) : Type ℓ where
  ok : A → Result E A
  err : E → Result E A

infixl 5 ◌>>=◌
abbrev pub ◌>>=◌ {ℓ κ} :
    {E : Type 0} {A : Type ℓ} {B : Type κ} → Result E A → (A → Result E B) → Result E B
ok a >>= f = f a
err e >>= f = err e

-- `if err != nil { return err }` for a call that gives only an error.
abbrev pub unless {ℓ} : {E : Type 0} {A : Type ℓ} → Option E → Result E A → Result E A
unless none r = r
unless (some e) r = err e

-- A call that may panic: a nil pointer is read, or a slice is indexed out of range.
pub data Go {ℓ} (A : Type ℓ) : Type ℓ where
  returns : A → Go A
  panics : Go A

abbrev pub go_bind {ℓ κ} : {A : Type ℓ} {B : Type κ} → Go A → (A → Go B) → Go B
go_bind (returns a) f = f a
go_bind panics f = panics

-- Reading through a pointer that may be nil.
abbrev pub deref {ℓ} : {A : Type ℓ} → Option A → Go A
deref none = panics
deref (some a) = returns a

-- Inversion of a call that returned.
pub go_bind-returns {ℓ κ} :
    {A : Type ℓ} {B : Type κ} (m : Go A) (f : A → Go B) {b : B}
    → go_bind m f ≡ returns b
    → (a : A) × (m ≡ returns a) × (f a ≡ returns b)
go_bind-returns (returns a) f h = (a, refl, h)
go_bind-returns panics f h = cc

pub returns_inj {ℓ} : {A : Type ℓ} {a b : A} → returns a ≡ returns b → a ≡ b
returns_inj e = cc

pub ok_inj {ℓ} : {E : Type 0} {A : Type ℓ} {a b : A} → ◌≡◌ {A = Result E A} (ok a) (ok b) → a ≡ b
ok_inj e = cc

pub deref-returns {ℓ} : {A : Type ℓ} (o : Option A) {a : A} → deref o ≡ returns a → o ≡ some a
deref-returns none e = cc
deref-returns (some a) e = ap some (returns_inj e)

pub err_ne {ℓ} : {E : Type 0} {A : Type ℓ} {e : E} {a : A} → ◌≡◌ {A = Result E A} (err e) (ok a) → ⊥
err_ne e = cc

pub some_inj {ℓ} : {A : Type ℓ} {a b : A} → some a ≡ some b → a ≡ b
some_inj e = cc

pub none_ne {ℓ} : {A : Type ℓ} {a : A} → none ≡ some a → ⊥
none_ne e = cc
