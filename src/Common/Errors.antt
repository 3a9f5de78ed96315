-- ===== src/Common/Errors.antt =====
-- internal/domain/errors.go, and the `(value, error)` pairs of Go. `fmt.Errorf("…: %w", err)` keeps
-- the error that `errors.Is` finds, so a wrapped error is the error itself.
use mathlib.Core.Bool.{Bool, true, false}

-- `constraint_failed` is an error whose text contains "constraint failed", and `other_error` any
-- other error that is not one of the domain's.
pub data Error : Type 0 where
  invalid_input not_found unauthorized tenant_mismatch constraint_failed other_error : Error

pub data Result {ℓ} (A : Type ℓ) : Type ℓ where
  ok : A → Result A
  err : Error → Result A

infixl 5 ◌>>=◌
abbrev pub ◌>>=◌ {ℓ κ} : {A : Type ℓ} {B : Type κ} → Result A → (A → Result B) → Result B
ok a >>= f = f a
err e >>= f = err e

-- `if cond { return e }`
abbrev pub guard {ℓ} : {A : Type ℓ} → Bool → Error → Result A → Result A
guard true e r = err e
guard false e r = r

-- What holds of the value where there is no error.
abbrev pub IfOk {ℓ κ} : {A : Type ℓ} → (A → Type κ) → Result A → Type κ
IfOk P (ok a) = P a
IfOk P (err e) = Unit

pub IfOk-guard {ℓ κ} :
    {A : Type ℓ} (P : A → Type κ) (b : Bool) (e : Error) (r : Result A)
    → IfOk P r
    → IfOk P (guard b e r)
IfOk-guard P true e r h = tt
IfOk-guard P false e r h = h

pub IfOk-bind {ℓ κ μ ν} :
    {A : Type ℓ} {B : Type κ} (P : A → Type μ) (Q : B → Type ν) (r : Result A) (f : A → Result B)
    → IfOk P r
    → ((a : A) → P a → IfOk Q (f a))
    → IfOk Q (r >>= f)
IfOk-bind P Q (ok a) f h k = k a h
IfOk-bind P Q (err e) f h k = tt

pub IfOk-mono {ℓ κ μ} :
    {A : Type ℓ} (P : A → Type κ) (Q : A → Type μ) (r : Result A)
    → IfOk P r
    → ((a : A) → P a → Q a)
    → IfOk Q r
IfOk-mono P Q (ok a) h k = k a h
IfOk-mono P Q (err e) h k = tt

pub IfOk-unit {ℓ} : {A : Type ℓ} (r : Result A) → IfOk {ℓ, 0} (λ a. Unit) r
IfOk-unit (ok a) = tt
IfOk-unit (err e) = tt

-- There is no error, and this holds of the value.
abbrev pub Succeeds {ℓ} : {A : Type ℓ} → (A → Type 0) → Result A → Type 0
Succeeds P (ok a) = P a
Succeeds P (err e) = ⊥

pub Succeeds-bind {ℓ κ} :
    {A : Type ℓ} {B : Type κ} (P : A → Type 0) (Q : B → Type 0) (r : Result A) (f : A → Result B)
    → Succeeds P r
    → ((a : A) → P a → Succeeds Q (f a))
    → Succeeds Q (r >>= f)
Succeeds-bind P Q (ok a) f h k = k a h
Succeeds-bind P Q (err e) f h k = absurd h
