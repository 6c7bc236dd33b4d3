-- ===== src/Prelude/Int.antt =====
-- Go's int64 as integers that wrap at 64 bits; `negsuc n` is -(n + 1).
use Prim.Native.Nat.{ℕ, zero, suc, ◌+◌, ◌-◌, ◌*◌, ◌/◌, ◌%◌}
use asterkube.Prelude.Tests.{ltb, if◌then◌else◌}

pub data ℤ : Type 0 where
  pos : ℕ → ℤ
  negsuc : ℕ → ℤ

-- The integer that a bit pattern of 64 bits stands for; wider numbers lose their upper bits.
abbrev pub i64 : ℕ → ℤ
i64 n =
    if ltb (n % 18446744073709551616) 9223372036854775808
    then pos (n % 18446744073709551616)
    else negsuc (18446744073709551615 - n % 18446744073709551616)

-- The bit pattern of an integer.
abbrev pub pattern64 : ℤ → ℕ
pattern64 (pos n) = n % 18446744073709551616
pattern64 (negsuc n) = 18446744073709551615 - n % 18446744073709551616

abbrev pub add64 : ℤ → ℤ → ℤ
add64 a b = i64 (pattern64 a + pattern64 b)

abbrev pub sub64 : ℤ → ℤ → ℤ
sub64 a b = i64 (pattern64 a + 18446744073709551616 - pattern64 b)

abbrev pub mul64 : ℤ → ℤ → ℤ
mul64 a b = i64 (pattern64 a * pattern64 b)

abbrev pub negate : ℕ → ℤ
negate zero = pos zero
negate (suc n) = negsuc n

-- Division by a positive constant, towards zero.
abbrev pub div64 : ℤ → ℕ → ℤ
div64 (pos n) k = pos (n / k)
div64 (negsuc n) k = negate (suc n / k)

abbrev pub IsNegative : ℤ → Type 0
IsNegative (pos n) = ⊥
IsNegative (negsuc n) = Unit
