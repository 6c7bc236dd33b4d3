-- ===== src/Netlink/Attr.antt =====
-- The attribute encoding of cmd/asterkube-init/netlink_linux.go (nlAlign, nlAttr, nlAttrStr,
-- nlAttrU32, concat, trimNul), and the walk over attributes that the Go library makes for it
-- (`syscall.ParseNetlinkRouteAttr`).
pub mod RoundTrip
use asterkube.Prelude.{
  ℕ, zero, suc, ◌+◌, ◌-◌, ◌*◌, ◌/◌, ◌%◌, ◌≡◌, refl, ◌||◌, Bool, List, [], ◌∷◌, ◌++◌, Option, none,
  some, ltb, ◌==◌, if◌then◌else◌, length, drop, take, replicate,
}
use asterkube.Prelude.Bits.{and_not}
use asterkube.Prelude.Words.{Bytes, put_u16, put_u32, u16}

-- `(n + 3) &^ 3`
unfoldable pub nl_align : ℕ → ℕ
nl_align n = and_not (n + 3) 3

-- The length field is `uint16(l)`, and the buffer has the aligned length, zeros behind the data.
unfoldable pub nl_attr : ℕ → Bytes → Bytes
nl_attr typ payload =
    let l = 4 + length payload in
    put_u16 l ++ (put_u16 typ ++ (payload ++ replicate (nl_align l - l) 0))

unfoldable pub nl_attr_str : ℕ → Bytes → Bytes
nl_attr_str typ s = nl_attr typ (s ++ 0 ∷ [])

unfoldable pub nl_attr_u32 : ℕ → ℕ → Bytes
nl_attr_u32 typ v = nl_attr typ (put_u32 v)

abbrev pub concat : List Bytes → Bytes
concat [] = []
concat (p ∷ ps) = p ++ concat ps

-- The bytes without one trailing NUL.
unfoldable pub trim_nul : Bytes → Bytes
trim_nul [] = []
trim_nul (b ∷ []) = if b == 0 then [] else b ∷ []
trim_nul (b ∷ c ∷ bs) = b ∷ trim_nul (c ∷ bs)

pub record RouteAttr : Type 0 where
  pub kind : ℕ
  pub value : Bytes

-- What a walk over encoded data comes to: its items, `EINVAL`, an index out of range (Go's
-- panic), or no fuel left, which is no Go behaviour.
pub data Parsed {ℓ} (A : Type ℓ) : Type ℓ where
  parsed : A → Parsed A
  invalid panicked no_fuel : Parsed A

abbrev pub map_parsed {ℓ κ} : {A : Type ℓ} {B : Type κ} → (A → B) → Parsed A → Parsed B
map_parsed f (parsed a) = parsed (f a)
map_parsed f invalid = invalid
map_parsed f panicked = panicked
map_parsed f no_fuel = no_fuel

-- One attribute is split off per round; each takes four bytes at least, so the length of the
-- bytes is fuel enough. `b = b[rtaAlignOf(len):]` panics where the padding is missing.
unfoldable pub parse_attrs : ℕ → Bytes → Parsed (List RouteAttr)
parse_attrs fuel [] = parsed []
parse_attrs fuel (a ∷ []) = parsed []
parse_attrs fuel (a ∷ b ∷ []) = parsed []
parse_attrs fuel (a ∷ b ∷ c ∷ []) = parsed []
parse_attrs zero (a ∷ b ∷ c ∷ d ∷ rest) = no_fuel
parse_attrs (suc fuel) (a ∷ b ∷ c ∷ d ∷ rest) =
    let l = u16 a b in
    let attr : RouteAttr = record { kind = u16 c d; value = take (l - 4) rest } in
    let more = parse_attrs fuel (drop (nl_align l - 4) rest) in
    if ltb l 4 || ltb (4 + length rest) l
    then invalid
    else if ltb (4 + length rest) (nl_align l)
    then panicked
    else map_parsed (λ (attrs : List RouteAttr). attr ∷ attrs) more
