-- ===== src/Prelude/Words.antt =====
-- Bytes, and the fixed-width words that `encoding/binary` puts into them and reads from them.
use Prim.Native.Nat.{ℕ, zero, suc, ◌+◌, ◌*◌, ◌/◌, ◌%◌, ◌≤◌, ◌<◌}
use mathlib.Core.Path.{◌≡◌, refl, ap}
use mathlib.Core.List.{List, [], ◌∷◌}
use mathlib.Core.Bool.{Bool, true, false, ◌&&◌}
use native.Mathlib.Omega.{arith}
use asterkube.Prelude.Tests.{◌==◌}
use asterkube.Prelude.Lists.{length, take, drop}

abbrev pub Bytes : Type 0
Bytes = List ℕ

abbrev pub IsByte : ℕ → Type 0
IsByte b = b < 256

-- `binary.LittleEndian.PutUint16` and `PutUint32`: the bytes written. The argument is reduced
-- to the width first, as the Go conversion of the value does.
abbrev pub put_u16 : ℕ → Bytes
put_u16 v = v % 256 ∷ v / 256 % 256 ∷ []

abbrev pub put_u32 : ℕ → Bytes
put_u32 v = v % 256 ∷ v / 256 % 256 ∷ v / 65536 % 256 ∷ v / 16777216 % 256 ∷ []

-- `binary.BigEndian.PutUint16` and `PutUint32`.
abbrev pub put_u16_be : ℕ → Bytes
put_u16_be v = v / 256 % 256 ∷ v % 256 ∷ []

abbrev pub put_u32_be : ℕ → Bytes
put_u32_be v = v / 16777216 % 256 ∷ v / 65536 % 256 ∷ v / 256 % 256 ∷ v % 256 ∷ []

-- The word that four or two bytes stand for.
abbrev pub u16 : ℕ → ℕ → ℕ
u16 a b = a + b * 256

abbrev pub u32 : ℕ → ℕ → ℕ → ℕ → ℕ
u32 a b c d = a + b * 256 + c * 65536 + d * 16777216

pub u16-put_u16 : (v : ℕ) → v < 65536 → u16 (v % 256) (v / 256 % 256) ≡ v
u16-put_u16 v h = omega arith

pub u32-put_u32 :
    (v : ℕ)
    → v < 4294967296
    → u32 (v % 256) (v / 256 % 256) (v / 65536 % 256) (v / 16777216 % 256) ≡ v
u32-put_u32 v h = omega arith

-- Equality of byte strings (Go's `==` on strings, `bytes.Equal`).
unfoldable pub bytes_eq : Bytes → Bytes → Bool
bytes_eq [] [] = true
bytes_eq [] (y ∷ ys) = false
bytes_eq (x ∷ xs) [] = false
bytes_eq (x ∷ xs) (y ∷ ys) = x == y && bytes_eq xs ys

pub bytes_eq→eq : (xs ys : Bytes) → bytes_eq xs ys ≡ true → xs ≡ ys
unfolding bytes_eq
bytes_eq→eq [] [] h = refl
bytes_eq→eq [] (y ∷ ys) h = ground arith
bytes_eq→eq (x ∷ xs) [] h = ground arith
bytes_eq→eq (x ∷ xs) (y ∷ ys) h = ground (arith, bytes_eq→eq xs ys)

pub bytes_eq_refl : (xs : Bytes) → bytes_eq xs xs ≡ true
unfolding bytes_eq
bytes_eq_refl [] = refl
bytes_eq_refl (x ∷ xs) = ground (arith, bytes_eq_refl xs)

-- `copy(buf[off:], src)` where `src` fits.
unfoldable pub copy_at : Bytes → ℕ → Bytes → Bytes
copy_at buf off [] = buf
copy_at [] off (x ∷ xs) = []
copy_at (b ∷ bs) zero (x ∷ xs) = x ∷ copy_at bs zero xs
copy_at (b ∷ bs) (suc off) (x ∷ xs) = b ∷ copy_at bs off (x ∷ xs)

pub length-copy_at :
    (buf : Bytes) (off : ℕ) (src : Bytes) → length (copy_at buf off src) ≡ length buf
unfolding copy_at
length-copy_at buf off [] = refl
length-copy_at [] off (x ∷ xs) = refl
length-copy_at (b ∷ bs) zero (x ∷ xs) = ap suc (length-copy_at bs zero xs)
length-copy_at (b ∷ bs) (suc off) (x ∷ xs) = ap suc (length-copy_at bs off (x ∷ xs))

-- `buf[off:off+n]`.
abbrev pub slice : ℕ → ℕ → Bytes → Bytes
slice off n buf = take n (drop off buf)

-- What `copy` wrote is read back.
pub slice-copy_at_self :
    (buf : Bytes) (off : ℕ) (src : Bytes)
    → off + length src ≤ length buf
    → slice off (length src) (copy_at buf off src) ≡ src
unfolding copy_at
slice-copy_at_self buf off [] h = refl
slice-copy_at_self [] off (x ∷ xs) h = absurd (omega arith)
slice-copy_at_self (b ∷ bs) zero (x ∷ xs) h =
    ap (λ t. x ∷ t) (slice-copy_at_self bs zero xs (omega arith))
slice-copy_at_self (b ∷ bs) (suc off) (x ∷ xs) h = slice-copy_at_self bs off (x ∷ xs) (omega arith)

-- A slice that ends where the copy begins, or begins where it ends, is left alone.
pub slice-copy_at_before :
    (buf : Bytes) (off : ℕ) (src : Bytes) (i n : ℕ)
    → i + n ≤ off
    → slice i n (copy_at buf off src) ≡ slice i n buf
unfolding copy_at
slice-copy_at_before buf off [] i n h = refl
slice-copy_at_before [] off (x ∷ xs) i n h = refl
slice-copy_at_before (b ∷ bs) zero (x ∷ xs) zero zero h = refl
slice-copy_at_before (b ∷ bs) zero (x ∷ xs) zero (suc n) h = absurd (omega arith)
slice-copy_at_before (b ∷ bs) zero (x ∷ xs) (suc i) n h = absurd (omega arith)
slice-copy_at_before (b ∷ bs) (suc off) (x ∷ xs) zero zero h = refl
slice-copy_at_before (b ∷ bs) (suc off) (x ∷ xs) zero (suc n) h =
    ap (λ t. b ∷ t) (slice-copy_at_before bs off (x ∷ xs) zero n (omega arith))
slice-copy_at_before (b ∷ bs) (suc off) (x ∷ xs) (suc i) n h =
    slice-copy_at_before bs off (x ∷ xs) i n (omega arith)

drop-copy_at_after :
    (buf : Bytes) (off : ℕ) (src : Bytes) (i : ℕ)
    → off + length src ≤ i
    → drop i (copy_at buf off src) ≡ drop i buf
unfolding copy_at
drop-copy_at_after buf off [] i h = refl
drop-copy_at_after [] off (x ∷ xs) i h = refl
drop-copy_at_after (b ∷ bs) off (x ∷ xs) zero h = absurd (omega arith)
drop-copy_at_after (b ∷ bs) zero (x ∷ xs) (suc i) h = drop-copy_at_after bs zero xs i (omega arith)
drop-copy_at_after (b ∷ bs) (suc off) (x ∷ xs) (suc i) h =
    drop-copy_at_after bs off (x ∷ xs) i (omega arith)

pub slice-copy_at_after :
    (buf : Bytes) (off : ℕ) (src : Bytes) (i n : ℕ)
    → off + length src ≤ i
    → slice i n (copy_at buf off src) ≡ slice i n buf
slice-copy_at_after buf off src i n h = ap (λ t. take n t) (drop-copy_at_after buf off src i h)
