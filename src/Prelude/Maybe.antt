-- ===== src/Prelude/Maybe.antt =====
-- Calls that may fault: `none` is undefined behaviour, such as a read outside an object.
use mathlib.Core.Option.{Option, none, some}

infixl 5 ◌>>=◌
abbrev pub ◌>>=◌ {ℓ κ} : {A : Type ℓ} {B : Type κ} → Option A → (A → Option B) → Option B
none >>= f = none
some a >>= f = f a
