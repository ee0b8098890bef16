-- ===== src/Base/Int.antt =====
-- Signed integers over the native numbers: what `int` and byte differences stand for.
use Prim.Native.Nat.{ℕ, ◌+◌, ◌-◌, ◌/◌, ◌%◌}
use mathlib.Core.Path.{◌≡◌}
use mathlib.Core.Logic.{◌↔◌}
use native.Mathlib.Omega.{arith}
use mathlib.Core.Bool.{Bool, false, not}
use halo_os.Base.Tests.{leb, ◌==◌, if◌then◌else◌}

-- `negsuc n` is -(n + 1).
pub data ℤ : Type 0 where
  pos : ℕ → ℤ
  negsuc : ℕ → ℤ

-- a - b, as an integer.
abbrev pub sub_ℕ : ℕ → ℕ → ℤ
sub_ℕ a b = if leb b a then pos (a - b) else negsuc (b - a - 1)

-- C's `/` and `%` by a positive number: the quotient is cut towards 0, and the remainder takes the
-- sign of the dividend.
abbrev pub quot : ℤ → ℕ → ℤ
quot (pos v) d = pos (v / d)
quot (negsuc n) d = sub_ℕ 0 ((n + 1) / d)

abbrev pub rem : ℤ → ℕ → ℤ
rem (pos v) d = pos (v % d)
rem (negsuc n) d = sub_ℕ 0 ((n + 1) % d)

abbrev pub is_positive : ℤ → Bool
is_positive (pos v) = not (v == 0)
is_positive (negsuc n) = false

pub sub_ℕ-zero_iff : (a b : ℕ) → (sub_ℕ a b ≡ pos 0) ↔ (a ≡ b)
sub_ℕ-zero_iff a b = (ground arith, ground arith)
