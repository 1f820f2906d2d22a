-- ===== src/Prelude/Outcomes.antt =====
-- What a call comes to: a value, or the way in which the code stops.
use mathlib.Core.Path.{◌≡◌, refl}
use mathlib.Core.Bool.{Bool, true, false}

-- `error` is a call of `error(.)` or `error_with_status(.)` of stage 1, which do not return; `hlt`
-- is a halt of stage 2; `fault` is an access outside an array; `out_of_fuel` is none of the code's:
-- the bound on a loop's rounds ran out.
pub data Stop : Type 0 where
  error hlt fault out_of_fuel : Stop

pub data Outcome {ℓ} (A : Type ℓ) : Type ℓ where
  ok : A → Outcome A
  stop : Stop → Outcome A

infixl 5 ◌>>=◌ ◌>>◌
abbrev pub ◌>>=◌ {ℓ κ} : {A : Type ℓ} {B : Type κ} → Outcome A → (A → Outcome B) → Outcome B
ok a >>= k = k a
stop why >>= k = stop why

-- `if (!b) error(...)` and the like.
abbrev pub require : Bool → Stop → Outcome (Unit {0})
require true why = ok tt
require false why = stop why

-- A chain that comes to a value has first steps that do.
pub bind_ok {ℓ κ} :
    {A : Type ℓ} {B : Type κ} (step : Outcome A) (k : A → Outcome B) {b : B}
    → (step >>= k) ≡ ok b
    → (a : A) × (step ≡ ok a) × (k a ≡ ok b)
bind_ok (stop why) k h = cc
bind_ok (ok a) k h = (a, refl, h)

abbrev pub ◌>>◌ {ℓ} : {B : Type ℓ} → Outcome (Unit {0}) → Outcome B → Outcome B
step >> later = step >>= λ _. later

-- The ways in which stage 2 gives up: a halt, or a wild access.
abbrev pub IsHalt : Stop → Type 0
IsHalt Stop.hlt = Unit
IsHalt Stop.fault = Unit
IsHalt Stop.error = ⊥
IsHalt Stop.out_of_fuel = ⊥

-- Total correctness: the outcome is a value with the postcondition, or stage 2 gives up.
abbrev pub Ends {ℓ} : {A : Type ℓ} → (A → Type 0) → Outcome A → Type 0
Ends P (ok a) = P a
Ends P (stop why) = IsHalt why

pub Ends-bind {ℓ κ} :
    {A : Type ℓ} {B : Type κ} (P : A → Type 0) (Q : B → Type 0) (step : Outcome A)
    (k : A → Outcome B)
    → Ends P step
    → ((a : A) → P a → Ends Q (k a))
    → Ends Q (step >>= k)
Ends-bind P Q (ok a) k h f = f a h
Ends-bind P Q (stop why) k h f = h

-- From partial correctness, and from the ways in which the outcome can stop.
pub Ends-of {ℓ} :
    {A : Type ℓ} (P : A → Type 0) (step : Outcome A)
    → ((a : A) → step ≡ ok a → P a)
    → Ends (λ _. Unit) step
    → Ends P step
Ends-of P (ok a) f h = f a refl
Ends-of P (stop why) f h = h

pub Ends-imp {ℓ} :
    {A : Type ℓ} (P Q : A → Type 0) (step : Outcome A)
    → ((a : A) → P a → Q a)
    → Ends P step
    → Ends Q step
Ends-imp P Q (ok a) f h = f a h
Ends-imp P Q (stop why) f h = h

-- The same for stage 1, which gives up by a call of `error`.
abbrev pub Gives {ℓ} : {A : Type ℓ} → (A → Type 0) → Outcome A → Type 0
Gives P (ok a) = P a
Gives P (stop Stop.error) = Unit
Gives P (stop Stop.hlt) = ⊥
Gives P (stop Stop.fault) = ⊥
Gives P (stop Stop.out_of_fuel) = ⊥

pub Gives-bind {ℓ κ} :
    {A : Type ℓ} {B : Type κ} (P : A → Type 0) (Q : B → Type 0) (step : Outcome A)
    (k : A → Outcome B)
    → Gives P step
    → ((a : A) → P a → Gives Q (k a))
    → Gives Q (step >>= k)
Gives-bind P Q (ok a) k h f = f a h
Gives-bind P Q (stop Stop.error) k h f = tt
Gives-bind P Q (stop Stop.hlt) k h f = absurd h
Gives-bind P Q (stop Stop.fault) k h f = absurd h
Gives-bind P Q (stop Stop.out_of_fuel) k h f = absurd h

-- Of a value that a call gives, more is known than what it meets: that the call has given it.
pub Gives-imp {ℓ} :
    {A : Type ℓ} (P Q : A → Type 0) (step : Outcome A)
    → ((a : A) → step ≡ ok a → P a → Q a)
    → Gives P step
    → Gives Q step
Gives-imp P Q (ok a) f h = f a refl h
Gives-imp P Q (stop Stop.error) f h = tt
Gives-imp P Q (stop Stop.hlt) f h = absurd h
Gives-imp P Q (stop Stop.fault) f h = absurd h
Gives-imp P Q (stop Stop.out_of_fuel) f h = absurd h
