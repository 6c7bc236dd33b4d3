-- ===== src/Inet.antt =====
-- `net.IP` and `net.IPMask` of the Go library as cmd/asterkube-init uses them: byte slices, nil
-- being the empty one.
use asterkube.Prelude.{
  ℕ, ◌≡◌, refl, ◌&&◌, Bool, true, false, [], ◌∷◌, Option, none, some, ◌==◌, if◌then◌else◌,
  replicate, length, take, drop, length-drop, arith,
}
use asterkube.Prelude.{List, String, ltb, leb, bind_option, ◌+◌, ◌*◌, ◌-◌, ◌/◌, ◌%◌, ◌++◌}
use asterkube.Prelude.Text.{codes, split_on, contains_byte, str_eq}
use asterkube.Prelude.Decimal.{decimal}
use asterkube.Prelude.Words.{Bytes, bytes_eq}

abbrev pub Ip : Type 0
Ip = Bytes

-- `::ffff:0.0.0.0/96`, the prefix of the mapped form.
abbrev pub v4_in_v6 : Bytes
v4_in_v6 = 0 ∷ 0 ∷ 0 ∷ 0 ∷ 0 ∷ 0 ∷ 0 ∷ 0 ∷ 0 ∷ 0 ∷ 255 ∷ 255 ∷ []

-- `ip.To4()`: the four bytes of an IPv4 address in its short or its mapped form, else nil.
unfoldable pub to4 : Ip → Option Bytes
to4 ip =
    if length ip == 4
    then some ip
    else if length ip == 16 && bytes_eq (take 12 ip) v4_in_v6
    then some (drop 12 ip)
    else none

pub to4-length : (ip v4 : Bytes) → to4 ip ≡ some v4 → length v4 ≡ 4
unfolding to4
to4-length ip v4 h = ground (arith, length-drop 12 ip)

pub to4-four : (a b c d : ℕ) → to4 (a ∷ b ∷ c ∷ d ∷ []) ≡ some (a ∷ b ∷ c ∷ d ∷ [])
unfolding to4
to4-four a b c d = refl

-- `ip.IsUnspecified()`.
unfoldable pub is_unspecified : Ip → Bool
unfolding bytes_eq to4
is_unspecified ip = elim (to4 ip) [
  | some v4 ↦ bytes_eq v4 (0 ∷ 0 ∷ 0 ∷ 0 ∷ [])
  | none ↦ bytes_eq ip (replicate 16 0)
]

-- `ip == nil` for a slice that is nil exactly when it is empty.
unfoldable pub is_nil : Bytes → Bool
is_nil [] = true
is_nil (b ∷ bs) = false

-- A number of a dotted address: no empty one, no zero in front of others, at most 255.
unfoldable pub octet : List ℕ → Option ℕ
unfolding decimal
octet [] = none
octet (c ∷ []) = decimal (c ∷ []) 0
octet (c ∷ d ∷ cs) =
    if c == 48
    then none
    else elim (decimal (c ∷ d ∷ cs) 0) [ none ↦ none | some n ↦ if ltb n 256 then some n else none ]

abbrev four_octets : Option ℕ → Option ℕ → Option ℕ → Option ℕ → Option Bytes
four_octets (some a) (some b) (some c) (some d) = some (a ∷ b ∷ c ∷ d ∷ [])
four_octets _ _ _ _ = none

abbrev octets : List String → Option Bytes
octets (a ∷ b ∷ c ∷ d ∷ []) =
    four_octets (octet (codes a)) (octet (codes b)) (octet (codes c)) (octet (codes d))
octets _ = none

-- `net.ParseIP(s).To4()` for a text without colons; of those with one it is nil too, except in the mapped form
-- `::ffff:a.b.c.d`, which the program does not use.
unfoldable pub parse_ip4 : String → Option Bytes
unfolding split_on octet
parse_ip4 s = octets (split_on 46 s)

-- a<<24 | b<<16 | c<<8 | d
abbrev pub pack_ip4 : Bytes → ℕ
pack_ip4 (a ∷ b ∷ c ∷ d ∷ []) = a * 16777216 + b * 65536 + c * 256 + d
pack_ip4 _ = 0

abbrev hex_digit : ℕ → Option ℕ
hex_digit c =
    if leb 48 c && leb c 57
    then some (c - 48)
    else if leb 97 c && leb c 102
    then some (c - 87)
    else if leb 65 c && leb c 70
    then some (c - 55)
    else none

abbrev hex_value : List ℕ → ℕ → Option ℕ
hex_value [] n = some n
hex_value (c ∷ cs) n = bind_option (hex_digit c) (λ d. hex_value cs (n * 16 + d))

-- A group of an IPv6 address, of one to four digits.
abbrev hex_group : String → Option Bytes
hex_group s =
    if leb 1 (length (codes s)) && leb (length (codes s)) 4
    then bind_option (hex_value (codes s) 0) (λ n. some (n / 256 % 256 ∷ n % 256 ∷ []))
    else none

-- Groups between colons, of which the last of the address may be an IPv4 address.
abbrev hex_groups : List String → Option Bytes
hex_groups [] = some []
hex_groups (g ∷ []) = if contains_byte 46 g then parse_ip4 g else hex_group g
hex_groups (g ∷ gs) =
    bind_option (hex_group g) (λ b. bind_option (hex_groups gs) (λ bs. some (b ++ bs)))

-- The groups in front of an empty one, and those behind it.
abbrev at_empty : List String → List String × Option (List String)
at_empty [] = ([], none)
at_empty (g ∷ gs) =
    let rest = at_empty gs in if str_eq g "" then ([], some gs) else (g ∷ rest.0, rest.1)

-- `::` stands for the zeros that are missing, two bytes at least.
abbrev filled : Bytes → Bytes → Option Bytes
filled front back =
    if ltb (length front + length back) 16
    then some (front ++ replicate (16 - (length front + length back)) 0 ++ back)
    else none

-- No groups behind a `::` at the end; a single colon cannot stand there.
abbrev behind : List String → Option (List String)
behind [] = none
behind (g ∷ []) = if str_eq g "" then some [] else some (g ∷ [])
behind gs = some gs

abbrev only_hex : List String → Option Bytes
only_hex [] = some []
only_hex (g ∷ gs) =
    bind_option (hex_group g) (λ b. bind_option (only_hex gs) (λ bs. some (b ++ bs)))

abbrev around : List String → Option (List String) → Option Bytes
around front none = bind_option (hex_groups front) (λ bs. if length bs == 16 then some bs else none)
around front (some back) =
    bind_option (only_hex front)
      (λ a. bind_option (behind back) (λ gs. bind_option (hex_groups gs) (λ b. filled a b)))

-- `::` in front, or further on; a single colon cannot stand in front.
abbrev parse_ip6 : List String → Option Bytes
parse_ip6 (a ∷ b ∷ gs) =
    if str_eq a ""
    then (if str_eq b "" then around [] (some gs) else none)
    else around (at_empty (a ∷ b ∷ gs)).0 (at_empty (a ∷ b ∷ gs)).1
parse_ip6 gs = none

-- `net.ParseIP(s)`, as the 16 bytes that it gives.
unfoldable pub parse_ip : String → Option Bytes
unfolding parse_ip4 split_on contains_byte
parse_ip s =
    if contains_byte 58 s
    then parse_ip6 (split_on 58 s)
    else bind_option (parse_ip4 s) (λ v4. some (v4_in_v6 ++ v4))
