-- ===== src/Icmp/Checksum.antt =====
-- The checksum of an ICMP message is that of RFC 1071: icmpChecksum of cmd/asterkube-init/probe_linux.go.
use asterkube.Prelude.{
  ℕ, ◌+◌, ◌-◌, ◌*◌, ◌/◌, ◌%◌, ◌≤◌, ◌<◌, [], ◌∷◌, ◌++◌, some, ◌≡◌, ap, ◌∙◌, length, arith, All,
}
use asterkube.Prelude.Words.{Bytes, IsByte, put_u16_be}
use asterkube.Icmp.{sum_words, fold_carry, complemented, icmp_checksum}

-- The words of a message, added without a bound.
abbrev word_sum : Bytes → ℕ
word_sum [] = 0
word_sum (a ∷ []) = a * 256
word_sum (a ∷ b ∷ message) = a * 256 + b + word_sum message

word_sum-le : (message : Bytes) → All IsByte message → word_sum message ≤ 65535 * length message
word_sum-le [] w = omega arith
word_sum-le (a ∷ []) w = let h = w.0 in omega (arith, h)
word_sum-le (a ∷ b ∷ message) w =
    let h = w.0 in
    let k = w.1.0 in let rest = word_sum-le message w.1.1 in omega (arith, h, k, rest)

sum_words-word_sum :
    (sum : ℕ) (message : Bytes)
    → sum + word_sum message < 4294967296
    → sum_words sum message ≡ sum + word_sum message
unfolding sum_words
sum_words-word_sum sum [] h = omega arith
sum_words-word_sum sum (a ∷ []) h = omega arith
sum_words-word_sum sum (a ∷ b ∷ message) h =
    let small : (sum + (a * 256 + b)) % 4294967296 ≡ sum + (a * 256 + b) = omega arith in
    ap (λ s. sum_words s message) small
    ∙ sum_words-word_sum (sum + (a * 256 + b)) message (omega arith)
    ∙ omega arith

-- Two rounds.
abbrev folded : ℕ → ℕ
folded s = (s % 65536 + s / 65536) % 65536 + (s % 65536 + s / 65536) / 65536

fold_carry-folded : (s : ℕ) → s < 4294967296 → fold_carry 3 s ≡ some (folded s)
unfolding fold_carry
fold_carry-folded s h = ground arith

folded_zero : (s : ℕ) → s < 4294901760 → folded (s + (65535 - folded s)) ≡ 65535
folded_zero s h = omega arith

icmp_checksum-folded :
    (message : Bytes)
    → word_sum message < 4294967296
    → icmp_checksum message ≡ some (65535 - folded (word_sum message))
unfolding icmp_checksum
icmp_checksum-folded message h =
    let sum : sum_words 0 message ≡ word_sum message =
      sum_words-word_sum 0 message (omega (arith, h)) ∙ omega arith in
    ap (λ s. complemented (fold_carry 3 s)) sum
    ∙ ap complemented (fold_carry-folded (word_sum message) h)

-- For every message of bytes with zeros in place of its checksum and no longer than a packet, the checksum is
-- computed, and the message with the checksum in it has the checksum zero, which is how its receiver
-- finds it sound.
pub icmp_checksum_sound :
    (a b : ℕ) (rest : Bytes)
    → All IsByte (a ∷ b ∷ rest)
    → length rest < 65535
    → (c : ℕ) × (icmp_checksum (a ∷ b ∷ 0 ∷ 0 ∷ rest) ≡ some c)
      × (icmp_checksum (a ∷ b ∷ put_u16_be c ++ rest) ≡ some 0)
icmp_checksum_sound a b rest w h =
    let i = w.0 in
    let j = w.1.0 in
    let bound = word_sum-le rest w.1.1 in
    let s = word_sum (a ∷ b ∷ 0 ∷ 0 ∷ rest) in
    let c = 65535 - folded s in
    let small : s < 4294901760 = omega (arith, i, j, h, bound) in
    let sum : word_sum (a ∷ b ∷ put_u16_be c ++ rest) ≡ s + c = omega arith in
    let zero_left : 65535 - folded (s + c) ≡ 0 = omega (arith, folded_zero s small) in
    (
      c,
      icmp_checksum-folded (a ∷ b ∷ 0 ∷ 0 ∷ rest) (omega (arith, small)),
      icmp_checksum-folded (a ∷ b ∷ put_u16_be c ++ rest) (omega (arith, small, sum))
          ∙ ap some (ap (λ n. 65535 - folded n) sum ∙ zero_left),
    )
