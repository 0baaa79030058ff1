-- ===== src/Prelude/Int.antt =====
-- Signed integers, `negsuc n` for -(n + 1), with the few operations that the program makes on them.
use Prim.Native.Nat.{ℕ, zero, suc, ◌+◌, ◌-◌}
use mathlib.Core.Bool.{Bool, true, false}
use miau.Prelude.Tests.{ltb, leb, if◌then◌else◌}

pub data ℤ : Type 0 where
  pos : ℕ → ℤ
  negsuc : ℕ → ℤ

abbrev pub pos_part : ℤ → ℕ
pos_part (pos n) = n
pos_part (negsuc n) = 0

abbrev pub dec : ℤ → ℤ
dec (pos zero) = negsuc 0
dec (pos (suc n)) = pos n
dec (negsuc n) = negsuc (suc n)

-- The sum with a number that is not negative.
abbrev pub add_nat : ℤ → ℕ → ℤ
add_nat (pos a) n = pos (a + n)
add_nat (negsuc a) n = if leb n a then negsuc (a - n) else pos (n - a - 1)

-- `n < a`, and `a < n`.
abbrev pub above : ℕ → ℤ → Bool
above n (pos a) = ltb n a
above n (negsuc a) = false

abbrev pub below : ℤ → ℕ → Bool
below (pos a) n = ltb a n
below (negsuc a) n = true
