-- ===== src/Dhcp/Options/Items.antt =====
-- The option walk of cmd/asterkube-init/dhcp_linux.go against the structure of an option field: pads
-- and options, up to an end mark or an option that is cut off.
use asterkube.Prelude.{
  ℕ, zero, suc, ◌≤◌, ◌<◌, ◌≡◌, ◌≢◌, ◌⊎◌, inl, inr, refl, sym, ap, subst, ◌∙◌, List, [], ◌∷◌, ◌++◌,
  arith, take, drop, length, length-append, length-take, length-drop, take-append, drop-append,
  take-append-drop, append_assoc, All,
}
use asterkube.Prelude.Words.{Bytes}
use native.Mathlib.Decide.{ℕ_discrete, dec_lt}
use asterkube.Dhcp.Packet.{opt_end}
use asterkube.Dhcp.Options.{DhcpLease, Walk, take_option, options_loop, parse_options}

pub data Item : Type 0 where
  pad : Item
  option : ℕ → Bytes → Item

abbrev pub encode_items : List Item → Bytes
encode_items [] = []
encode_items (pad ∷ items) = 0 ∷ encode_items items
encode_items (option code v ∷ items) = code ∷ length v ∷ (v ++ encode_items items)

-- What the options do, one after the other.
abbrev pub take_items : List Item → Walk → Walk
take_items [] w = w
take_items (pad ∷ items) w = take_items items w
take_items (option code v ∷ items) w = take_items items (take_option code v w)

-- An option's code is neither a pad nor the end.
abbrev pub IsProper : Item → Type 0
IsProper pad = Unit
IsProper (option code v) = (code ≢ 0) × (code ≢ opt_end)

-- Where the walk stops: nothing left, the end mark, or an option without its length or its value.
abbrev pub Stops : Bytes → Type 0
Stops [] = Unit
Stops (code ∷ []) = code ≢ 0
Stops (code ∷ l ∷ rest) = (code ≡ opt_end) ⊎ ((code ≢ 0) × (length rest < l))

Stops-at : (fuel : ℕ) (tail : Bytes) (w : Walk) → Stops tail → options_loop fuel tail w ≡ w
unfolding options_loop
Stops-at fuel [] w h = refl
Stops-at zero (code ∷ rest) w h = refl
Stops-at (suc fuel) (code ∷ []) w h = ground arith
Stops-at (suc fuel) (code ∷ l ∷ rest) w h = ground arith

pad_step :
    (fuel : ℕ) (rest : Bytes) (w : Walk)
    → options_loop (suc fuel) (0 ∷ rest) w ≡ options_loop fuel rest w
unfolding options_loop
pad_step fuel [] w = refl
pad_step fuel (l ∷ rest) w = refl

option_step :
    (fuel code : ℕ) (v rest : Bytes) (w : Walk)
    → code ≢ 0
    → code ≢ opt_end
    → options_loop (suc fuel) (code ∷ length v ∷ (v ++ rest)) w
      ≡ options_loop fuel rest (take_option code v w)
unfolding options_loop
option_step fuel code v rest w h k =
    ground (arith, length-append v rest, take-append v rest, drop-append v rest)

-- With fuel for every byte, the walk over encoded items does what the items do and stops behind them.
loop-encode_items :
    (items : List Item) (fuel : ℕ) (tail : Bytes) (w : Walk)
    → All IsProper items
    → Stops tail
    → length items ≤ fuel
    → options_loop fuel (encode_items items ++ tail) w ≡ take_items items w
loop-encode_items [] fuel tail w h s f = Stops-at fuel tail w s
loop-encode_items (i ∷ items) zero tail w h s f = absurd (omega arith)
loop-encode_items (pad ∷ items) (suc fuel) tail w (p, h) s f =
    pad_step fuel (encode_items items ++ tail) w
    ∙ loop-encode_items items fuel tail w h s (omega arith)
loop-encode_items (option code v ∷ items) (suc fuel) tail w (p, h) s f =
    rw (append_assoc v (encode_items items) tail) (
      option_step fuel code v (encode_items items ++ tail) w p.0 p.1
      ∙ loop-encode_items items fuel tail (take_option code v w) h s (omega arith))

count-le-bytes :
    (items : List Item) (tail : Bytes) → length items ≤ length (encode_items items ++ tail)
count-le-bytes [] tail = omega arith
count-le-bytes (pad ∷ items) tail = omega (arith, count-le-bytes items tail)
count-le-bytes (option code v ∷ items) tail =
    rw (append_assoc v (encode_items items) tail)
      (omega (arith, count-le-bytes items tail, length-append v (encode_items items ++ tail)))

-- parseOptions on items, pads anywhere between them, and then anything at which the walk stops (the end
-- mark with whatever follows it, or an option that is cut off) does exactly what the items do, in
-- their order.
pub parse_options-encode_items :
    (items : List Item) (tail : Bytes) (lease : DhcpLease)
    → All IsProper items
    → Stops tail
    → parse_options (encode_items items ++ tail) lease
      ≡ take_items items (record { msg_type = 0; lease = lease })
unfolding parse_options
parse_options-encode_items items tail lease h s =
    loop-encode_items items _ tail _ h s (count-le-bytes items tail)

abbrev pub Splits : Bytes → Type 0
Splits b =
    (items : List Item) × (tail : Bytes) × (encode_items items ++ tail ≡ b)
    × All IsProper items
    × Stops tail

Splits-stop : (b : Bytes) → Stops b → Splits b
Splits-stop b h = ([], b, refl, tt, h)

Splits-pad : (b : Bytes) → Splits b → Splits (0 ∷ b)
Splits-pad b (items, tail, e, p, s) = (pad ∷ items, tail, ap (λ t. 0 ∷ t) e, (tt, p), s)

Splits-option :
    (code : ℕ) (v b : Bytes)
    → code ≢ 0
    → code ≢ opt_end
    → Splits b
    → Splits (code ∷ length v ∷ (v ++ b))
Splits-option code v b h k (items, tail, e, p, s) = (
  option code v ∷ items,
  tail,
  ap (λ t. code ∷ length v ∷ t) (append_assoc v (encode_items items) tail ∙ ap (λ t. v ++ t) e),
  ((h, k), p),
  s,
)

-- An option whose value is all there, cut out of the bytes.
Splits-cut :
    (code l : ℕ) (rest : Bytes)
    → code ≢ 0
    → code ≢ opt_end
    → l ≤ length rest
    → Splits (drop l rest)
    → Splits (code ∷ l ∷ rest)
Splits-cut code l rest h k fits s =
    let size : length (take l rest) ≡ l = omega (arith, length-take l rest) in
    subst (λ n. Splits (code ∷ n ∷ rest)) size
      (subst (λ t. Splits (code ∷ length (take l rest) ∷ t)) (take-append-drop l rest)
        (Splits-option code (take l rest) (drop l rest) h k s))

Splits-all : (fuel : ℕ) (b : Bytes) → length b ≤ fuel → Splits b
Splits-all fuel [] h = Splits-stop [] tt
Splits-all zero (code ∷ rest) h = absurd (omega arith)
Splits-all (suc fuel) (code ∷ []) h = elim (ℕ_discrete code 0) [
  | yes z ↦ subst (λ c. Splits (c ∷ [])) (sym z) (Splits-pad [] (Splits-stop [] tt))
  | no n ↦ Splits-stop (code ∷ []) n
]
Splits-all (suc fuel) (code ∷ l ∷ rest) h = elim (ℕ_discrete code opt_end) [
  | yes e ↦ Splits-stop (code ∷ l ∷ rest) (inl e)
  | no e ↦ elim (ℕ_discrete code 0) [
    | yes z ↦
        subst (λ c. Splits (c ∷ l ∷ rest)) (sym z)
          (Splits-pad (l ∷ rest) (Splits-all fuel (l ∷ rest) (omega arith)))
    | no z ↦ elim (dec_lt (length rest) l) [
      | yes short ↦ Splits-stop (code ∷ l ∷ rest) (inr (z, short))
      | no fits ↦
          Splits-cut code l rest z e (omega arith)
            (Splits-all fuel (drop l rest) (omega (arith, length-drop l rest)))
    ]
  ]
]

-- Any bytes, well formed or not, are items up to a place where the walk stops, and parseOptions does
-- exactly what those items do: it ends, and an option that is cut off is not read at all.
pub parse_options_total :
    (b : Bytes) (lease : DhcpLease)
    → (items : List Item) × (tail : Bytes) × (encode_items items ++ tail ≡ b)
      × All IsProper items
      × Stops tail
      × (parse_options b lease ≡ take_items items (record { msg_type = 0; lease = lease }))
parse_options_total b lease =
    let (items, tail, e, p, s) = Splits-all (length b) b (omega arith) in
    (
      items,
      tail,
      e,
      p,
      s,
      ap (λ c. parse_options c lease) (sym e) ∙ parse_options-encode_items items tail lease p s,
    )
