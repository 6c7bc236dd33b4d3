-- ===== src/Netlink/Attr/RoundTrip.antt =====
-- What `nlAttr` encodes, the library's attribute walk reads back.
use asterkube.Prelude.{
  ℕ, zero, suc, ◌+◌, ◌-◌, ◌/◌, ◌%◌, ◌<◌, ◌≤◌, ◌≡◌, refl, ap, ◌∙◌, List, [], ◌∷◌, ◌++◌, arith,
  length, drop, take, replicate, All, length-append, length-replicate, drop-append_at, append_assoc,
  take-append_at,
}
use asterkube.Prelude.Bits.{and_not, bit_and_three}
use asterkube.Prelude.Words.{Bytes, u16, u16-put_u16}
use asterkube.Netlink.Attr.{
  nl_align, nl_attr, trim_nul, RouteAttr, Parsed, parsed, map_parsed, parse_attrs,
}

-- `nlAlign` rounds up to the next multiple of four.
pub nl_align_lem : (n : ℕ) → (nl_align n % 4 ≡ 0) × (n ≤ nl_align n) × (nl_align n < n + 4)
unfolding nl_align and_not
nl_align_lem n =
    let e = bit_and_three (n + 3) in (omega (arith, e), omega (arith, e), omega (arith, e))

-- The encoded attributes of a list, one behind the other.
abbrev pub encode_attrs : List RouteAttr → Bytes
encode_attrs [] = []
encode_attrs (a ∷ attrs) = nl_attr a.kind a.value ++ encode_attrs attrs

-- The kind and the length with its header fit the two 16-bit fields.
abbrev pub AttrFits : RouteAttr → Type 0
AttrFits a = (a.kind < 65536) × (4 + length a.value < 65536)

padding : Bytes → Bytes
padding payload = replicate (nl_align (4 + length payload) - (4 + length payload)) 0

length-padding :
    (payload : Bytes)
    → 4 + length payload + length (padding payload) ≡ nl_align (4 + length payload)
unfolding padding
length-padding payload = omega (
  arith,
  length-replicate {A = ℕ} (nl_align (4 + length payload) - (4 + length payload)) 0,
  nl_align_lem (4 + length payload),
)

pub length-nl_attr :
    (kind : ℕ) (payload : Bytes) → length (nl_attr kind payload) ≡ nl_align (4 + length payload)
unfolding nl_attr padding
length-nl_attr kind payload =
    omega (arith, length-append payload (padding payload), length-padding payload)

-- One more attribute in front of what the rest of the walk comes to.
pub then_attr : ℕ → Bytes → Parsed (List RouteAttr) → Parsed (List RouteAttr)
then_attr kind value = map_parsed (λ attrs. record { kind = kind; value = value } ∷ attrs)

-- One round of the walk on a header whose length is covered.
parse_attrs_step :
    (fuel a b c d : ℕ) (rest : Bytes)
    → 4 ≤ u16 a b
    → u16 a b ≤ 4 + length rest
    → nl_align (u16 a b) ≤ 4 + length rest
    → parse_attrs (suc fuel) (a ∷ b ∷ c ∷ d ∷ rest)
      ≡ then_attr
          (u16 c d)
          (take (u16 a b - 4) rest)
          (parse_attrs fuel (drop (nl_align (u16 a b) - 4) rest))
unfolding parse_attrs then_attr
parse_attrs_step fuel a b c d rest h1 h2 h3 = ground arith

module _ (payload rest : Bytes) where
  abbrev l : ℕ
  l = 4 + length payload

  abbrev body : Bytes
  body = (payload ++ padding payload) ++ rest

  length-body : length body ≡ length payload + length (padding payload) + length rest
  length-body = omega (
    arith,
    length-append (payload ++ padding payload) rest,
    length-append payload (padding payload),
  )

  take-body : take (l - 4) body ≡ payload
  take-body =
      rw (append_assoc payload (padding payload) rest)
        (take-append_at (l - 4) payload (padding payload ++ rest) (omega arith))

  drop-body : drop (nl_align l - 4) body ≡ rest
  drop-body =
      drop-append_at (nl_align l - 4) (payload ++ padding payload) rest
        (omega (arith, length-append payload (padding payload), length-padding payload))

-- The walk over `nlAttr`'s bytes gives the attribute and goes on behind its padding.
pub parse_attrs-nl_attr :
    (fuel kind : ℕ) (payload rest : Bytes)
    → kind < 65536
    → 4 + length payload < 65536
    → parse_attrs (suc fuel) (nl_attr kind payload ++ rest)
      ≡ then_attr kind payload (parse_attrs fuel rest)
unfolding nl_attr padding
parse_attrs-nl_attr fuel kind payload rest hk hl =
    let l = 4 + length payload in
    let e : u16 (l % 256) (l / 256 % 256) ≡ l = u16-put_u16 l hl in
    let room : nl_align l ≤ 4 + length (body payload rest) =
      omega (arith, length-body payload rest, length-padding payload) in
    parse_attrs_step fuel (l % 256) (l / 256 % 256) (kind % 256) (kind / 256 % 256)
      (body payload rest) (omega (arith, e)) (omega (arith, e, nl_align_lem l)) (rw e room)
    ∙ cc (e, u16-put_u16 kind hk, take-body payload rest, drop-body payload rest)

-- Walking the attributes that were encoded one behind the other gives the list of them back,
-- with any fuel that covers their number, if each kind and each length fits its 16-bit field.
pub parse_attrs-encode_attrs :
    (attrs : List RouteAttr) (fuel : ℕ)
    → All AttrFits attrs
    → length attrs ≤ fuel
    → parse_attrs fuel (encode_attrs attrs) ≡ parsed attrs
parse_attrs-encode_attrs [] fuel h hf = unfold parse_attrs in refl
parse_attrs-encode_attrs (a ∷ attrs) zero h hf = absurd (omega arith)
parse_attrs-encode_attrs (a ∷ attrs) (suc fuel) (ha, h) hf =
    parse_attrs-nl_attr fuel a.kind a.value (encode_attrs attrs) ha.0 ha.1
    ∙ ap (then_attr a.kind a.value) (parse_attrs-encode_attrs attrs fuel h (omega arith))
    ∙ unfold then_attr in refl

-- A NUL-terminated name is read back without its NUL.
pub trim_nul-append_nul : (name : Bytes) → trim_nul (name ++ 0 ∷ []) ≡ name
unfolding trim_nul
trim_nul-append_nul [] = refl
trim_nul-append_nul (b ∷ []) = refl
trim_nul-append_nul (b ∷ c ∷ bs) = ap (λ t. b ∷ t) (trim_nul-append_nul (c ∷ bs))
