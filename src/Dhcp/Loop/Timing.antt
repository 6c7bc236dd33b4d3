-- ===== src/Dhcp/Loop/Timing.antt =====
-- When dhcpRenewLoop of cmd/asterkube-init/dhcp_linux.go wakes up.
use asterkube.Prelude.{
  ℕ, zero, suc, le→ltb, ltb, if◌then◌else◌, ◌+◌, ◌-◌, ◌*◌, ◌/◌, ◌%◌, ◌≤◌, ◌<◌, ◌≡◌, refl, ap, ap₂,
  sym, subst, ◌∙◌, none, arith,
}
use asterkube.Prelude.Int.{pos, negsuc, i64, sub64, IsNegative, mul64, div64, negate}
use native.Mathlib.Decide.{dec_lt}
use asterkube.Dhcp.Options.{DhcpLease}
use asterkube.Dhcp.Loop.{timers, second, or_hour}

or_hour-pos : (n : ℕ) → 0 < n → or_hour (pos n) ≡ pos n
or_hour-pos zero h = absurd (omega arith)
or_hour-pos (suc n) h = refl

i64-small : (n : ℕ) → n < 9223372036854775808 → i64 n ≡ pos n
i64-small n h = ground arith

mul64-small :
    (a b : ℕ)
    → a < 9223372036854775808
    → b < 9223372036854775808
    → mul64 (pos a) (pos b) ≡ i64 (a * b)
mul64-small a b h k =
    let e : a % 18446744073709551616 ≡ a = omega arith in
    let f : b % 18446744073709551616 ≡ b = omega arith in ap i64 (ap₂ (λ (x y : ℕ). x * y) e f)

module _ (lease : DhcpLease) (h : 0 < lease.lease_sec) (w : lease.lease_sec < 4294967296) where
  abbrev dur : ℕ
  dur = lease.lease_sec * second

  dur_lem : or_hour (mul64 (pos lease.lease_sec) (pos second)) ≡ pos dur
  dur_lem =
      ap or_hour (
        mul64-small lease.lease_sec second (omega arith) (omega arith)
        ∙ i64-small dur (omega arith))
      ∙ or_hour-pos dur (omega arith)

  t1_lem : (timers lease none).t1 ≡ pos (dur / 2)
  unfolding timers
  t1_lem = ap (λ d. div64 d 2) dur_lem

  t2_lem : (timers lease none).t2 ≡ div64 (i64 (dur * 7)) 8
  unfolding timers
  t2_lem =
      ap (λ d. div64 (mul64 d (pos 7)) 8) dur_lem
      ∙ ap (λ d. div64 d 8) (mul64-small dur 7 (omega arith) (omega arith))

sub64-pos : (a b : ℕ) → b ≤ a → a < 9223372036854775808 → sub64 (pos a) (pos b) ≡ pos (a - b)
sub64-pos a b h k = ground arith

-- For a lease of at most 1317624576 seconds (some forty years) T1 is half of it and T2 seven eighths,
-- in nanoseconds, and the second wait is their difference.
pub timers_lem :
    (lease : DhcpLease)
    → 0 < lease.lease_sec
    → lease.lease_sec ≤ 1317624576
    → ((timers lease none).t1 ≡ pos (lease.lease_sec * second / 2))
      × ((timers lease none).t2 ≡ pos (lease.lease_sec * second * 7 / 8))
      × (sub64 (timers lease none).t2 (timers lease none).t1
          ≡ pos (lease.lease_sec * second * 7 / 8 - lease.lease_sec * second / 2))
timers_lem lease h k =
    let w : lease.lease_sec < 4294967296 = omega arith in
    let d = dur lease h w in
    let e1 = t1_lem lease h w in
    let e2 : (timers lease none).t2 ≡ pos (d * 7 / 8) =
      t2_lem lease h w ∙ ap (λ x. div64 x 8) (i64-small (d * 7) (omega arith)) in
    (e1, e2, ap₂ sub64 e2 e1 ∙ sub64-pos (d * 7 / 8) (d / 2) (omega arith) (omega arith))

i64-IsNegative : (n : ℕ) → 9223372036854775808 ≤ n % 18446744073709551616 → IsNegative (i64 n)
i64-IsNegative n h = rw (le→ltb (n % 18446744073709551616) 9223372036854775808 h) tt

sub64-IsNegative_pos :
    (a b : ℕ) → a < b → b < 9223372036854775808 → IsNegative (sub64 (pos a) (pos b))
sub64-IsNegative_pos a b h k = i64-IsNegative _ (omega arith)

sub64-IsNegative-negate :
    (m b : ℕ) → 0 < b → m + b ≤ 9223372036854775808 → IsNegative (sub64 (negate m) (pos b))
sub64-IsNegative-negate zero b h k = i64-IsNegative _ (omega arith)
sub64-IsNegative-negate (suc m) b h k = i64-IsNegative _ (omega arith)

wrapped_wait :
    (r b : ℕ)
    → 0 < b
    → b < 2305843009213693952
    → r < 18446744073709551616
    → (r < 9223372036854775808 → r / 8 < b)
    → IsNegative (sub64 (div64 (i64 r) 8) (pos b))
wrapped_wait r b h k w l = elim (dec_lt r 9223372036854775808) [
  | yes small ↦
      subst (λ x. IsNegative (sub64 (div64 x 8) (pos b))) (sym (i64-small r small))
        (sub64-IsNegative_pos (r / 8) b (l small) (omega arith))
  | no large ↦
      let e : i64 r ≡ negsuc (18446744073709551615 - r) = ground arith in
      subst (λ x. IsNegative (sub64 (div64 x 8) (pos b))) (sym e)
        (sub64-IsNegative-negate (suc (18446744073709551615 - r) / 8) b h (omega arith))
]

i64-mod : (n : ℕ) → i64 n ≡ i64 (n % 18446744073709551616)
i64-mod n =
    let e : n % 18446744073709551616 % 18446744073709551616 ≡ n % 18446744073709551616 =
      omega arith in
    sym (ap (λ r. if ltb r 9223372036854775808 then pos r else negsuc (18446744073709551615 - r)) e)

IsNegative-wait :
    (d : ℕ)
    → 9223372036854775808 ≤ d * 7
    → d < 4294967296000000000
    → IsNegative (sub64 (div64 (i64 (d * 7)) 8) (pos (d / 2)))
IsNegative-wait d h k =
    subst (λ x. IsNegative (sub64 (div64 x 8) (pos (d / 2)))) (sym (i64-mod (d * 7)))
      (wrapped_wait (d * 7 % 18446744073709551616) (d / 2) (omega arith) (omega arith) (omega arith)
        (λ small. omega arith))

-- For a lease of more than 1317624576 seconds, up to below 2^32 (and without an override of the renewal time), the
-- second wait, t2 - t1, is negative, by the overflow of `dur * 7` in int64.
pub timers_overflow :
    (lease : DhcpLease)
    → 1317624576 < lease.lease_sec
    → lease.lease_sec < 4294967296
    → IsNegative (sub64 (timers lease none).t2 (timers lease none).t1)
timers_overflow lease h k =
    let p : 0 < lease.lease_sec = omega arith in
    subst IsNegative (sym (ap₂ sub64 (t2_lem lease p k) (t1_lem lease p k)))
      (IsNegative-wait (lease.lease_sec * second) (omega arith) (omega arith))
