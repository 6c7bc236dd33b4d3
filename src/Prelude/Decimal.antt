-- ===== src/Prelude/Decimal.antt =====
-- Numbers in decimal: `strconv.Itoa` and `strconv.Atoi` of the Go library.
use Prim.Native.Nat.{ℕ, zero, suc, ◌+◌, ◌-◌, ◌*◌, ◌/◌, ◌%◌, ◌<◌}
use Prim.Native.Char.{Char, code}
use Prim.Native.String.{String}
use mathlib.Core.Bool.{Bool, true, false, ◌&&◌}
use mathlib.Core.List.{List, [], ◌∷◌}
use mathlib.Core.Option.{Option, none, some}
use mathlib.Core.Logic.{inl, inr}
use mathlib.Core.Path.{◌≡◌, ap, ◌∙◌}
use native.Mathlib.Omega.{arith}
use asterkube.Prelude.Tests.{ltb, leb, ◌==◌, if◌then◌else◌, if_both, if_cases, Bool-cases}
use asterkube.Prelude.Lists.{get_or}
use asterkube.Prelude.Int.{ℤ, pos, negsuc}
use asterkube.Prelude.Text.{codes, str_eq, eq_iff, str_append, cons-str_append, nil-str_append}

-- The value of decimal digits behind a number.
unfoldable pub decimal : List ℕ → ℕ → Option ℕ
decimal [] n = some n
decimal (d ∷ ds) n =
    let rest = decimal ds (n * 10 + (d - 48)) in if leb 48 d && leb d 57 then rest else none

abbrev digits_of : List ℕ → Option ℕ
digits_of [] = none
digits_of (d ∷ ds) = decimal (d ∷ ds) 0

abbrev in_range : Bool → Option ℕ → Option ℤ
in_range negative none = none
in_range false (some n) = if ltb n 9223372036854775808 then some (pos n) else none
in_range true (some zero) = some (pos 0)
in_range true (some (suc n)) = if ltb n 9223372036854775808 then some (negsuc n) else none

-- `strconv.Atoi`
unfoldable pub atoi : List ℕ → Option ℤ
unfolding decimal
atoi [] = none
atoi (c ∷ s) =
    if c == 45
    then in_range true (digits_of s)
    else if c == 43
    then in_range false (digits_of s)
    else in_range false (digits_of (c ∷ s))

abbrev pub digit : ℕ → String
digit d = get_or ("0" ∷ "1" ∷ "2" ∷ "3" ∷ "4" ∷ "5" ∷ "6" ∷ "7" ∷ "8" ∷ "9" ∷ []) d "0"

itoa_fuel : ℕ → ℕ → String → String
itoa_fuel zero n behind = behind
itoa_fuel (suc fuel) n behind =
    let text = str_append (digit (n % 10)) behind in
    let more = itoa_fuel fuel (n / 10) text in if n / 10 == 0 then text else more

-- A number in decimal: each digit takes one step, and a number has no more digits than its value and one.
unfoldable pub itoa : ℕ → String
unfolding itoa_fuel
itoa n = itoa_fuel (suc n) n ""

codes_one :
    (c : Char) (behind : String)
    → codes (str_append (String.◌∷◌ c String.[]) behind) ≡ code c ∷ codes behind
codes_one c behind =
    ap codes (cons-str_append c String.[] behind ∙ ap (String.◌∷◌ c) (nil-str_append behind))

codes-digit :
    (d : ℕ) (behind : String)
    → d < 10
    → codes (str_append (digit d) behind) ≡ ((d + 48) ∷ codes behind)
codes-digit zero b h = codes_one "0" b
codes-digit (suc zero) b h = codes_one "1" b
codes-digit (suc (suc zero)) b h = codes_one "2" b
codes-digit (suc (suc (suc zero))) b h = codes_one "3" b
codes-digit (suc (suc (suc (suc zero)))) b h = codes_one "4" b
codes-digit (suc (suc (suc (suc (suc zero))))) b h = codes_one "5" b
codes-digit (suc (suc (suc (suc (suc (suc zero)))))) b h = codes_one "6" b
codes-digit (suc (suc (suc (suc (suc (suc (suc zero))))))) b h = codes_one "7" b
codes-digit (suc (suc (suc (suc (suc (suc (suc (suc zero)))))))) b h = codes_one "8" b
codes-digit (suc (suc (suc (suc (suc (suc (suc (suc (suc zero))))))))) b h = codes_one "9" b
codes-digit (suc (suc (suc (suc (suc (suc (suc (suc (suc (suc d)))))))))) b h = absurd (omega arith)

step-decimal :
    (d n : ℕ) (ds : List ℕ) → d < 10 → decimal ((d + 48) ∷ ds) n ≡ decimal ds (n * 10 + d)
unfolding decimal
step-decimal d n ds h =
    let e : d + 48 - 48 ≡ d = omega arith in
    if_cases (λ (o : Option ℕ). o ≡ decimal ds (n * 10 + d)) (leb 48 (d + 48) && leb (d + 48) 57)
      (λ k. ap (λ x. decimal ds (n * 10 + x)) e) (λ k. absurd (ground arith))

-- A digit read behind a number.
decimal-digit :
    (d n : ℕ) (behind : String)
    → d < 10
    → decimal (codes (str_append (digit d) behind)) n ≡ decimal (codes behind) (n * 10 + d)
decimal-digit d n behind h =
    ap (λ l. decimal l n) (codes-digit d behind h) ∙ step-decimal d n (codes behind) h

decimal-itoa_fuel :
    (fuel n : ℕ) (behind : String)
    → n < fuel
    → decimal (codes (itoa_fuel fuel n behind)) 0 ≡ decimal (codes behind) n
unfolding itoa_fuel
decimal-itoa_fuel zero n behind h = absurd (omega arith)
decimal-itoa_fuel (suc fuel) n behind h =
    if_cases (λ (s : String). decimal (codes s) 0 ≡ decimal (codes behind) n) (n / 10 == 0)
      (λ z.
        let e = decimal-digit (n % 10) 0 behind (omega arith) in
        let z' : n / 10 ≡ 0 = ground arith in
        let m : 0 * 10 + n % 10 ≡ n = omega arith in e ∙ ap (decimal (codes behind)) m)
      (λ z.
        let e =
          decimal-itoa_fuel fuel (n / 10) (str_append (digit (n % 10)) behind) (ground arith) in
        let f = decimal-digit (n % 10) (n / 10) behind (omega arith) in
        let m : n / 10 * 10 + n % 10 ≡ n = omega arith in e ∙ f ∙ ap (decimal (codes behind)) m)

abbrev filled : List ℕ → Bool
filled [] = false
filled (d ∷ ds) = true

-- There is always a digit.
more-filled :
    (fuel n : ℕ) (behind : String)
    → filled (codes behind) ≡ true
    → filled (codes (itoa_fuel fuel n behind)) ≡ true
unfolding itoa_fuel
more-filled zero n behind h = h
more-filled (suc fuel) n behind h =
    let e : filled (codes (str_append (digit (n % 10)) behind)) ≡ true =
      ap filled (codes-digit (n % 10) behind (omega arith)) in
    if_both (λ (s : String). filled (codes s) ≡ true) (n / 10 == 0) e
      (more-filled fuel (n / 10) (str_append (digit (n % 10)) behind) e)

itoa-filled : (n : ℕ) → filled (codes (itoa n)) ≡ true
unfolding itoa itoa_fuel
itoa-filled n =
    let e : filled (codes (str_append (digit (n % 10)) "")) ≡ true =
      ap filled (codes-digit (n % 10) "" (omega arith)) in
    if_both (λ (s : String). filled (codes s) ≡ true) (n / 10 == 0) e
      (more-filled n (n / 10) (str_append (digit (n % 10)) "") e)

pub str_eq-itoa : (n : ℕ) → str_eq (itoa n) "" ≡ false
str_eq-itoa n = elim (Bool-cases (str_eq (itoa n) "")) [
  | inl e ↦
      let empty : filled (codes (itoa n)) ≡ false =
        ap (λ s. filled (codes s)) ((eq_iff (itoa n) "").0 e) in
      ground (arith, empty, itoa-filled n)
  | inr e ↦ e
]

decimal-atoi :
    (l : List ℕ) (n : ℕ)
    → filled l ≡ true
    → decimal l 0 ≡ some n
    → n < 9223372036854775808
    → atoi l ≡ some (pos n)
unfolding atoi decimal
decimal-atoi [] n f h lt = absurd (ground arith)
decimal-atoi (c ∷ s) n f h lt = ground arith

-- A number below 2^63 that is printed and read again.
pub atoi-itoa : (n : ℕ) → n < 9223372036854775808 → atoi (codes (itoa n)) ≡ some (pos n)
unfolding itoa decimal
atoi-itoa n h =
    decimal-atoi (codes (itoa n)) n (itoa-filled n) (decimal-itoa_fuel (suc n) n "" (omega arith)) h

-- `%d` of an int.
unfoldable pub print_int : ℤ → String
unfolding itoa itoa_fuel
print_int (pos n) = itoa n
print_int (negsuc n) = str_append "-" (itoa (suc n))

-- Whether an int is above zero.
abbrev pub is_positive : ℤ → Bool
is_positive (pos zero) = false
is_positive (pos (suc n)) = true
is_positive (negsuc n) = false
