-- ===== src/Prelude/Runs.antt =====
-- Runs that may crash, or be cut off by a lack of fuel.
use mathlib.Core.Option.{Option, none, some}

-- `crash` is undefined behaviour, such as an access outside an object.
pub data Run {ℓ} (A : Type ℓ) : Type ℓ where
  done : A → Run A
  crash : Run A
  out_of_fuel : Run A

infixl 5 ◌>>>◌
abbrev pub ◌>>>◌ {ℓ κ} : {A : Type ℓ} {B : Type κ} → Run A → (A → Run B) → Run B
done a >>> f = f a
crash >>> f = crash
out_of_fuel >>> f = out_of_fuel

abbrev pub or_crash {ℓ} : {A : Type ℓ} → Option A → Run A
or_crash none = crash
or_crash (some a) = done a

-- The run has not been cut off.
abbrev pub HasFuel {ℓ} : {A : Type ℓ} → Run A → Type 0
HasFuel (done a) = Unit
HasFuel crash = Unit
HasFuel out_of_fuel = ⊥
