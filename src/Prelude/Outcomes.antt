-- ===== src/Prelude/Outcomes.antt =====
-- What a call of the modelled code may end in besides its value.
use mathlib.Core.Option.{Option, none, some}

-- `runtime_error` and `logic_error` are the exceptions of <stdexcept> that the code can meet.
-- `overrun` is an access outside a buffer, `null_pointer` one through an empty `unique_ptr`, and
-- `no_return` the end of a function that is to give a value.
-- `out_of_fuel` is not the code's: it marks a loop that was given too few rounds.
pub data Error : Type 0 where
  runtime_error logic_error overrun null_pointer no_return out_of_fuel : Error

pub data Result {ℓ} (A : Type ℓ) : Type ℓ where
  err : Error → Result A
  ok : A → Result A

infixl 5 ◌>>=◌
abbrev pub ◌>>=◌ {ℓ κ} : {A : Type ℓ} {B : Type κ} → Result A → (A → Result B) → Result B
err error >>= next = err error
ok result >>= next = next result

abbrev pub or_err {ℓ} : {A : Type ℓ} → Option A → Error → Result A
or_err none e = err e
or_err (some a) e = ok a

-- The call returns, with a value that satisfies the predicate.
abbrev pub Returns {ℓ} : {A : Type ℓ} → (A → Type 0) → Result A → Type 0
Returns P (ok a) = P a
Returns P (err e) = ⊥

pub Returns-bind {ℓ κ} :
    {A : Type ℓ} {B : Type κ} (P : A → Type 0) (Q : B → Type 0) (m : Result A) (f : A → Result B)
    → Returns P m
    → ((a : A) → P a → Returns Q (f a))
    → Returns Q (m >>= f)
Returns-bind P Q (ok a) f h k = k a h
Returns-bind P Q (err e) f h k = h

pub Returns-mono {ℓ} :
    {A : Type ℓ} (P Q : A → Type 0) (m : Result A)
    → ((a : A) → P a → Q a)
    → Returns P m
    → Returns Q m
Returns-mono P Q (ok a) k h = k a h
Returns-mono P Q (err e) k h = h
