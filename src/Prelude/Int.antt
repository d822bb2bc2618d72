-- ===== src/Prelude/Int.antt =====
-- Signed integers over the native numbers, as far as the program compares and subtracts times.
use Prim.Native.Nat.{ℕ, ◌-◌, ◌*◌}
use mathlib.Core.Bool.{Bool, false}
use omni_tun.Prelude.Tests.{ltb, leb, if◌then◌else◌}

-- `negsuc n` is -(n + 1).
pub data ℤ : Type 0 where
  pos : ℕ → ℤ
  negsuc : ℕ → ℤ

abbrev pub pos_part : ℤ → ℕ
pos_part (pos n) = n
pos_part (negsuc n) = 0

-- a - b, as an integer.
abbrev pub sub_ℕ : ℕ → ℕ → ℤ
sub_ℕ a b = if leb b a then pos (a - b) else negsuc (b - a - 1)

-- `k * z > n` for natural `k` and `n`.
abbrev pub scaled_exceeds : ℕ → ℤ → ℕ → Bool
scaled_exceeds k (pos z) n = ltb n (z * k)
scaled_exceeds k (negsuc z) n = false
