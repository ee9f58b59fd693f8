-- ===== src/Prelude/Int.antt =====
-- C's `int` and the return codes: signed integers over the native numbers.
use Prim.Native.Nat.{ℕ, ◌-◌, ◌%◌, ◌^◌}
use mathlib.Core.Bool.{Bool, true, false}
use libscout.Prelude.Tests.{ltb, ◌==◌, if◌then◌else◌}

-- `negsuc n` is -(n + 1).
pub data ℤ : Type 0 where
  pos : ℕ → ℤ
  negsuc : ℕ → ℤ

abbrev pub int_lt : ℤ → ℤ → Bool
int_lt (pos a) (pos b) = ltb a b
int_lt (pos a) (negsuc b) = false
int_lt (negsuc a) (pos b) = true
int_lt (negsuc a) (negsuc b) = ltb b a

abbrev pub int_eq : ℤ → ℤ → Bool
int_eq (pos a) (pos b) = a == b
int_eq (pos a) (negsuc b) = false
int_eq (negsuc a) (pos b) = false
int_eq (negsuc a) (negsuc b) = a == b

-- The conversion of an unsigned value of any width to a 32-bit `int`, as gcc defines it.
abbrev pub to_int : ℕ → ℤ
to_int w = if ltb (w % 2 ^ 32) (2 ^ 31) then pos (w % 2 ^ 32) else negsuc (2 ^ 32 - w % 2 ^ 32 - 1)

-- The conversion of an `int` to a 64-bit unsigned value: sign extension.
abbrev pub to_u64 : ℤ → ℕ
to_u64 (pos n) = n
to_u64 (negsuc n) = 2 ^ 64 - 1 - n

-- Return codes.
abbrev pub exit_success : ℤ
exit_success = pos 0

abbrev pub enoent : ℤ
enoent = pos 2

abbrev pub enomem : ℤ
enomem = pos 12

abbrev pub efault : ℤ
efault = pos 14

abbrev pub eexist : ℤ
eexist = pos 17

abbrev pub einval : ℤ
einval = pos 22

abbrev pub ebadmsg : ℤ
ebadmsg = pos 74
