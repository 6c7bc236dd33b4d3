-- ===== src/Prelude/Text.antt =====
-- Go strings that the program only compares, cuts at a separator or strips of a prefix: native
-- texts. `codes` gives the bytes of an ASCII text.
use Prim.Native.Nat.{ℕ, zero, suc, ◌≤◌}
use Prim.Native.Char.{Char, code}
use Prim.Native.String.{String}
use mathlib.Core.Bool.{Bool, true, false, ◌&&◌, ◌||◌}
use mathlib.Core.List.{List, [], ◌∷◌}
use mathlib.Core.Option.{Option, none, some}
use mathlib.Core.Path.{◌≡◌, refl, ap, ◌∙◌, sym, subst}
use mathlib.Core.Logic.{inl, inr}
use native.Mathlib.Omega.{arith}
use asterkube.Prelude.Tests.{◌==◌, ltb, if◌then◌else◌, Bool-cases}
use asterkube.Prelude.Lists.{length}
pub use text.Mathlib.Text.{◌==◌ as str_eq}
pub use text.Mathlib.TextEquality.{eq_iff}
pub use text.Mathlib.TextPositions.{eq_refl as str_eq-refl}
pub use Prim.Native.String.{◌++◌ as str_append}
pub use Prim.Native.String.append.{nil as nil-str_append, cons as cons-str_append}

abbrev pub codes : String → List ℕ
codes String.[] = []
codes (String.◌∷◌ c s) = code c ∷ codes s

-- `s[:n]` of a text that is longer, else the text.
abbrev pub take_text : ℕ → String → String
take_text zero s = String.[]
take_text (suc n) String.[] = String.[]
take_text (suc n) (String.◌∷◌ c s) = String.◌∷◌ c (take_text n s)

pub length-take_text : (n : ℕ) (s : String) → length (codes (take_text n s)) ≤ n
length-take_text zero s = omega arith
length-take_text (suc n) String.[] = omega arith
length-take_text (suc n) (String.◌∷◌ c s) = omega (arith, length-take_text n s)

-- `strings.HasSuffix(s, p)`.
unfoldable pub has_suffix : String → String → Bool
has_suffix String.[] p = str_eq String.[] p
has_suffix (String.◌∷◌ c s) p = str_eq (String.◌∷◌ c s) p || has_suffix s p

-- `s <= t`, by the bytes.
unfoldable pub str_leb : String → String → Bool
str_leb String.[] t = true
str_leb (String.◌∷◌ c s) String.[] = false
str_leb (String.◌∷◌ c s) (String.◌∷◌ d t) =
    let rest = str_leb s t in ltb (code c) (code d) || (code c == code d && rest)

-- `strings.HasPrefix(s, p)`.
unfoldable pub has_prefix : String → String → Bool
has_prefix s String.[] = true
has_prefix String.[] (String.◌∷◌ d p) = false
has_prefix (String.◌∷◌ c s) (String.◌∷◌ d p) = code c == code d && has_prefix s p

-- `strings.TrimPrefix(s, p)` where `s` has the prefix: `s[len(p):]`.
unfoldable pub cut_prefix : String → String → String
cut_prefix s String.[] = s
cut_prefix String.[] (String.◌∷◌ d p) = String.[]
cut_prefix (String.◌∷◌ c s) (String.◌∷◌ d p) = cut_prefix s p

-- `strings.TrimPrefix`.
unfoldable pub trim_prefix : String → String → String
unfolding has_prefix cut_prefix
trim_prefix s p = if has_prefix s p then cut_prefix s p else s

-- One character put in front of the first of the fields.
abbrev pub push_front : Char → List String → List String
push_front c [] = String.◌∷◌ c String.[] ∷ []
push_front c (w ∷ ws) = String.◌∷◌ c w ∷ ws

-- `strings.Split(s, sep)` for a separator of one byte: never the empty list.
unfoldable pub split_on : ℕ → String → List String
split_on sep String.[] = String.[] ∷ []
split_on sep (String.◌∷◌ c s) =
    let rest = split_on sep s in if code c == sep then String.[] ∷ rest else push_front c rest

-- `strings.Join(ws, sep)`.
unfoldable pub join : String → List String → String
join sep [] = String.[]
join sep (w ∷ []) = w
join sep (w ∷ v ∷ vs) = str_append w (str_append sep (join sep (v ∷ vs)))

-- `strings.Contains(s, p)`.
unfoldable pub contains_text : String → String → Bool
unfolding has_prefix
contains_text String.[] p = has_prefix String.[] p
contains_text (String.◌∷◌ c s) p = has_prefix (String.◌∷◌ c s) p || contains_text s p

-- What stands before and behind the first of a byte.
unfoldable pub cut_at : ℕ → String → Option (String × String)
cut_at b String.[] = none
cut_at b (String.◌∷◌ c s) =
    let later = cut_at b s in
    if code c == b
    then some (String.[], s)
    else elim later [ none ↦ none | some p ↦ some (String.◌∷◌ c p.0, p.1) ]

-- `strings.Contains(s, "c")` for one byte.
unfoldable pub contains_byte : ℕ → String → Bool
contains_byte b String.[] = false
contains_byte b (String.◌∷◌ c s) = if code c == b then true else contains_byte b s

-- A text that does not start with a dash is none that does.
pub dash_only :
    (s w : String) → has_prefix s "-" ≡ false → has_prefix w "-" ≡ true → str_eq s w ≡ false
dash_only s w h k = elim (Bool-cases (str_eq s w)) [
  | inl e ↦
      let same : has_prefix s "-" ≡ true =
        subst (λ x. has_prefix x "-" ≡ true) (sym ((eq_iff s w).0 e)) k in
      ground arith
  | inr e ↦ e
]

pub str_append_assoc :
    (a b c : String) → str_append (str_append a b) c ≡ str_append a (str_append b c)
str_append_assoc String.[] b c =
    ap (λ s. str_append s c) (nil-str_append b) ∙ sym (nil-str_append (str_append b c))
str_append_assoc (String.◌∷◌ x a) b c =
    ap (λ s. str_append s c) (cons-str_append x a b)
    ∙ cons-str_append x (str_append a b) c
    ∙ ap (String.◌∷◌ x) (str_append_assoc a b c)
    ∙ sym (cons-str_append x a (str_append b c))

pub has_prefix-str_append : (p s : String) → has_prefix (str_append p s) p ≡ true
unfolding has_prefix
has_prefix-str_append String.[] s = refl
has_prefix-str_append (String.◌∷◌ c p) s =
    rw (cons-str_append c p s, has_prefix-str_append p s) (ground arith)

pub cut_prefix-str_append : (p s : String) → cut_prefix (str_append p s) p ≡ s
unfolding cut_prefix
cut_prefix-str_append String.[] s = nil-str_append s
cut_prefix-str_append (String.◌∷◌ c p) s = rw (cons-str_append c p s) (cut_prefix-str_append p s)

-- Whether two texts differ where both have a character.
unfoldable pub apart : String → String → Bool
apart String.[] p = false
apart (String.◌∷◌ c s) String.[] = false
apart (String.◌∷◌ c s) (String.◌∷◌ d p) =
    let later = apart s p in if code c == code d then later else true

pub apart-has_prefix : (a p s : String) → apart a p ≡ true → has_prefix (str_append a s) p ≡ false
unfolding apart has_prefix
apart-has_prefix String.[] p s h = absurd (ground arith)
apart-has_prefix (String.◌∷◌ c a) String.[] s h = absurd (ground arith)
apart-has_prefix (String.◌∷◌ c a) (String.◌∷◌ d p) s h =
    rw (cons-str_append c a s) (elim (Bool-cases (code c == code d)) [
      | inl e ↦
          let rest : has_prefix (str_append a s) p ≡ false =
            apart-has_prefix a p s (ground (arith, h, e)) in
          ground (arith, rest)
      | inr e ↦ ground (arith, e)
    ])
