-- ===== src/Prelude/Bits.antt =====
-- Go's `|`, `&` and `&^` on unsigned words, and a bit's value at a position.
use Prim.Native.Nat.{
  ℕ, zero, suc, ◌+◌, ◌-◌, ◌*◌, ◌/◌, ◌%◌, ◌≤◌, min, max, bit_and, bit_or, digits, bitwise,
  bit_and-bitwise, bit_or-bitwise,
}
use mathlib.Core.Path.{◌≡◌, refl, sym, ap, ◌∙◌, subst}
use mathlib.Core.Logic.{◌≢◌}
use native.Mathlib.Omega.{arith}

-- `a &^ b`: the bits of `a` that are not in `b`.
unfoldable pub and_not : ℕ → ℕ → ℕ
and_not a b = a - bit_and a b

-- The bit of `a` at position `k`.
abbrev pub bit : ℕ → ℕ → ℕ
bit zero a = a % 2
bit (suc k) a = bit k (a / 2)

-- Any digitwise operation `f`, with `z` for what is left of the second number.
module _ (z : ℕ → ℕ) (f : ℕ → ℕ → ℕ) where
  -- Two counts of digits to go give the same, if neither is too small.
  either_count : (b a j k : ℕ) → a ≤ j → a ≤ k → digits z f j a b ≡ digits z f k a b
  either_count b (suc a) (suc j) (suc k) p q =
      ap (λ d. d * 2 + f (suc a % 2) (b % 2))
        (either_count (b / 2) (suc a / 2) j k (omega arith) (omega arith))
  either_count b (suc a) zero k p q = absurd (omega arith)
  either_count b (suc a) (suc j) zero p q = absurd (omega arith)
  either_count b zero (suc j) (suc k) p q = refl
  either_count b zero (suc j) zero p q = refl
  either_count b zero zero (suc k) p q = refl
  either_count b zero zero zero p q = refl

  -- The lowest digit, and the operation on the others.
  lowest :
      (a b : ℕ)
      → bitwise z f (suc a) b ≡ bitwise z f (suc a / 2) (b / 2) * 2 + f (suc a % 2) (b % 2)
  lowest a b =
      ap (λ d. d * 2 + f (suc a % 2) (b % 2))
        (either_count (b / 2) (suc a / 2) a (suc a / 2) (omega arith) (omega arith))

pub bit_and_step : (a b : ℕ) → bit_and a b ≡ bit_and (a / 2) (b / 2) * 2 + min (a % 2) (b % 2)
bit_and_step zero b = omega (arith, bit_and-bitwise 0 b, bit_and-bitwise 0 (b / 2))
bit_and_step (suc a) b =
    bit_and-bitwise (suc a) b
    ∙ lowest (λ y. zero) min a b
    ∙ ap (λ d. d * 2 + min (suc a % 2) (b % 2)) (sym (bit_and-bitwise (suc a / 2) (b / 2)))

pub bit_or_step : (a b : ℕ) → bit_or a b ≡ bit_or (a / 2) (b / 2) * 2 + max (a % 2) (b % 2)
bit_or_step zero b = omega (arith, bit_or-bitwise 0 b, bit_or-bitwise 0 (b / 2))
bit_or_step (suc a) b =
    bit_or-bitwise (suc a) b
    ∙ lowest (λ y. y) max a b
    ∙ ap (λ d. d * 2 + max (suc a % 2) (b % 2)) (sym (bit_or-bitwise (suc a / 2) (b / 2)))

-- The bits in common are no more than the first number.
common_le : (count a b : ℕ) → a ≤ count → bit_and a b ≤ a
common_le count zero b h = omega (arith, bit_and-bitwise 0 b)
common_le zero (suc a) b h = absurd (omega arith)
common_le (suc count) (suc a) b h =
    let lower = common_le count (suc a / 2) (b / 2) (omega arith) in
    omega (arith, bit_and_step (suc a) b)

pub bit_and-le : (a b : ℕ) → bit_and a b ≤ a
bit_and-le a b = common_le a a b (omega arith)

and_not_step : (a b : ℕ) → and_not a b ≡ and_not (a / 2) (b / 2) * 2 + (a % 2 - b % 2)
unfolding and_not
and_not_step a b = omega (arith, bit_and_step a b, bit_and-le (a / 2) (b / 2))

-- Each operation, seen one bit at a time.
pub bit-bit_or : (k a b : ℕ) → bit k (bit_or a b) ≡ max (bit k a) (bit k b)
bit-bit_or zero a b = omega (arith, bit_or_step a b)
bit-bit_or (suc k) a b =
    let e : bit_or a b / 2 ≡ bit_or (a / 2) (b / 2) = omega (arith, bit_or_step a b) in
    rw e (bit-bit_or k (a / 2) (b / 2))

pub bit-bit_and : (k a b : ℕ) → bit k (bit_and a b) ≡ min (bit k a) (bit k b)
bit-bit_and zero a b = omega (arith, bit_and_step a b)
bit-bit_and (suc k) a b =
    let e : bit_and a b / 2 ≡ bit_and (a / 2) (b / 2) = omega (arith, bit_and_step a b) in
    rw e (bit-bit_and k (a / 2) (b / 2))

pub bit-and_not : (k a b : ℕ) → bit k (and_not a b) ≡ bit k a - bit k b
bit-and_not zero a b = omega (arith, and_not_step a b)
bit-and_not (suc k) a b =
    let e : and_not a b / 2 ≡ and_not (a / 2) (b / 2) = omega (arith, and_not_step a b) in
    rw e (bit-and_not k (a / 2) (b / 2))

pub bit-le_one : (k a : ℕ) → bit k a ≤ 1
bit-le_one zero a = omega arith
bit-le_one (suc k) a = bit-le_one k (a / 2)

-- Nothing in common with 0.
none_common : (count a : ℕ) → a ≤ count → bit_and a 0 ≡ 0
none_common count zero h = omega (arith, bit_and-bitwise 0 0)
none_common zero (suc a) h = absurd (omega arith)
none_common (suc count) (suc a) h =
    let higher = none_common count (suc a / 2) (omega arith) in
    omega (arith, bit_and_step (suc a) 0)

pub bit_and_three : (a : ℕ) → bit_and a 3 ≡ a % 4
bit_and_three a = omega (
  arith,
  bit_and_step a 3,
  bit_and_step (a / 2) 1,
  none_common (a / 2 / 2) (a / 2 / 2) (omega arith),
)

-- The power of two at a position.
abbrev pub power : ℕ → ℕ
power zero = 1
power (suc k) = power k * 2

pub bit_and-power : (k a : ℕ) → bit_and a (power k) ≡ bit k a * power k
bit_and-power zero a = omega (arith, bit_and_step a 1, none_common (a / 2) (a / 2) (omega arith))
bit_and-power (suc k) a =
    let e : power k * 2 / 2 ≡ power k = omega arith in
    let higher : bit_and a (power k * 2)
        ≡ bit_and (a / 2) (power k) * 2 + min (a % 2) (power k * 2 % 2) =
      subst (λ p. bit_and a (power k * 2) ≡ bit_and (a / 2) p * 2 + min (a % 2) (power k * 2 % 2)) e
        (bit_and_step a (power k * 2)) in
    omega (arith, bit_and-power k (a / 2))

pub bit-zero : (k : ℕ) → bit k 0 ≡ 0
bit-zero zero = refl
bit-zero (suc k) = bit-zero k

-- It has no other bit.
pub bit-power : (k n : ℕ) → k ≢ n → bit k (power n) ≡ 0
bit-power zero zero h = absurd (h refl)
bit-power zero (suc n) h = omega arith
bit-power (suc k) zero h = bit-zero k
bit-power (suc k) (suc n) h =
    let half : power n * 2 / 2 ≡ power n = omega arith in
    ap (bit k) half ∙ bit-power k n (λ e. h (ap suc e))
