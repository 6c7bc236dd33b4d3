-- ===== src/Mount/Options/LastWord.antt =====
-- What a list of mount options does in the end.
use asterkube.Prelude.{
  ℕ, List, [], ◌∷◌, ◌++◌, Option, none, some, ◌≡◌, refl, sym, ap, ◌∙◌, arith, String, ◌==◌,
  if◌then◌else◌, append_assoc, append-nil, Bool, true, false, ◌≢◌, if_both, or_else,
}
use Prim.Native.Char.{Char, code}
use asterkube.Prelude.Bits.{bit, bit-bit_or, bit-and_not, bit-le_one}
use asterkube.Prelude.Text.{split_on, str_append, push_front, nil-str_append, cons-str_append}
use asterkube.Mount.Options.{
  Case, Effect, sets, clears, nothing, effect_of, mount_cases, MountOpts, apply_word, apply_words,
  apply_mount_opts, change_flags, comma, take_word,
}

push_front-append :
    (c : Char) (ws vs : List String) → ws ≢ [] → push_front c (ws ++ vs) ≡ push_front c ws ++ vs
push_front-append c [] vs h = absurd (h refl)
push_front-append c (w ∷ ws) vs h = refl

push_front_nonempty : (c : Char) (ws : List String) → push_front c ws ≢ []
push_front_nonempty c [] = ground arith
push_front_nonempty c (w ∷ ws) = ground arith

split_on_nonempty : (sep : ℕ) (s : String) → split_on sep s ≢ []
unfolding split_on
split_on_nonempty sep String.[] = ground arith
split_on_nonempty sep (String.◌∷◌ c s) =
    if_both (λ ws. ws ≢ []) (code c == sep) (ground arith) (push_front_nonempty c (split_on sep s))

-- One character more in front of a split text.
one_more :
    (t : Bool) (c : Char) (ws vs us : List String)
    → us ≡ ws ++ vs
    → ws ≢ []
    → (if t then String.[] ∷ us else push_front c us)
      ≡ (if t then String.[] ∷ ws else push_front c ws) ++ vs
one_more true c ws vs us e h = ap (λ u. String.[] ∷ u) e
one_more false c ws vs us e h = ap (push_front c) e ∙ push_front-append c ws vs h

comma_first : (b : String) → split_on comma (str_append "," b) ≡ "" ∷ split_on comma b
unfolding split_on
comma_first b =
    ap (split_on comma) (cons-str_append "," "" b ∙ ap (String.◌∷◌ ",") (nil-str_append b))

-- Splitting at the commas of two texts with a comma between them.
pub split_on-append :
    (a b : String)
    → split_on comma (str_append a (str_append "," b)) ≡ split_on comma a ++ split_on comma b
unfolding split_on
split_on-append String.[] b =
    ap (split_on comma) (nil-str_append (str_append "," b)) ∙ comma_first b
split_on-append (String.◌∷◌ c a) b =
    ap (split_on comma) (cons-str_append c a (str_append "," b))
    ∙ one_more (code c == comma) c (split_on comma a) (split_on comma b)
        (split_on comma (str_append a (str_append "," b))) (split_on-append a b)
        (split_on_nonempty comma a)

apply_words-append :
    (cases : List Case) (ws vs : List String) (st : MountOpts)
    → apply_words cases (ws ++ vs) st ≡ apply_words cases vs (apply_words cases ws st)
unfolding apply_words
apply_words-append cases [] vs st = refl
apply_words-append cases (o ∷ ws) vs st = apply_words-append cases ws vs (apply_word cases o st)

-- Options given in one text with a comma between them do what the first text and then the second does.
pub apply_mount_opts-append :
    (a b : String) (st : MountOpts)
    → apply_mount_opts (str_append a (str_append "," b)) st
      ≡ apply_mount_opts b (apply_mount_opts a st)
unfolding apply_mount_opts
apply_mount_opts-append a b st =
    ap (λ ws. apply_words mount_cases ws st) (split_on-append a b)
    ∙ apply_words-append mount_cases (split_on comma a) (split_on comma b) st

-- What a word says of the flag at position `k`: 1 to set it, 0 to clear it.
abbrev said : ℕ → Option Effect → Option ℕ
said k (some (sets m)) = if bit k m == 1 then some 1 else none
said k (some (clears m)) = if bit k m == 1 then some 0 else none
said k (some nothing) = none
said k none = none

-- What the last word that says anything of it says.
unfoldable pub last_said : List Case → ℕ → List String → Option ℕ
last_said cases k [] = none
last_said cases k (o ∷ ws) = elim (last_said cases k ws) [
  | some v ↦ some v
  | none ↦ said k (effect_of cases o)
]

-- The words that no case knows.
unfoldable pub unknown : List Case → List String → List String
unknown cases [] = []
unknown cases (o ∷ ws) =
    let later = unknown cases ws in elim (effect_of cases o) [ some e ↦ later | none ↦ o ∷ later ]

flag_after : (k f : ℕ) (e : Effect) → bit k (change_flags e f) ≡ or_else (said k (some e)) (bit k f)
flag_after k f (sets m) = ground (arith, bit-bit_or k f m, bit-le_one k m, bit-le_one k f)
flag_after k f (clears m) = ground (arith, bit-and_not k f m, bit-le_one k m, bit-le_one k f)
flag_after k f nothing = refl

first_or_later :
    (k : ℕ) (l : Option ℕ) (d : Option Effect) (o : String) (st : MountOpts)
    → or_else l (bit k (take_word d o st).flags)
      ≡ or_else (elim l [ some v ↦ some v | none ↦ said k d ]) (bit k st.flags)
first_or_later k (some v) d o st = refl
first_or_later k none (some e) o st = flag_after k st.flags e
first_or_later k none none o st = refl

words_so_far :
    (d : Option Effect) (o : String) (later : List String) (st : MountOpts)
    → (take_word d o st).data_words ++ later
      ≡ st.data_words ++ elim d [ some e ↦ later | none ↦ o ∷ later ]
words_so_far (some e) o later st = refl
words_so_far none o later st = append_assoc st.data_words (o ∷ []) later

pub apply_words-flags :
    (cases : List Case) (k : ℕ) (ws : List String) (st : MountOpts)
    → bit k (apply_words cases ws st).flags ≡ or_else (last_said cases k ws) (bit k st.flags)
unfolding apply_words apply_word last_said
apply_words-flags cases k [] st = refl
apply_words-flags cases k (o ∷ ws) st =
    apply_words-flags cases k ws (apply_word cases o st)
    ∙ first_or_later k (last_said cases k ws) (effect_of cases o) o st

pub apply_words-data :
    (cases : List Case) (ws : List String) (st : MountOpts)
    → (apply_words cases ws st).data_words ≡ st.data_words ++ unknown cases ws
unfolding apply_words apply_word unknown
apply_words-data cases [] st = sym (append-nil st.data_words)
apply_words-data cases (o ∷ ws) st =
    apply_words-data cases ws (apply_word cases o st)
    ∙ words_so_far (effect_of cases o) o (unknown cases ws) st

-- After the options of a text, a flag is what the last of them that names it says, else what it was;
-- and the words that are no mount flags have been added to the data, in their order.
pub apply_mount_opts-last_word :
    (opts : String) (st : MountOpts)
    → ((k : ℕ)
        → bit k (apply_mount_opts opts st).flags
          ≡ or_else (last_said mount_cases k (split_on comma opts)) (bit k st.flags))
      × ((apply_mount_opts opts st).data_words
          ≡ st.data_words ++ unknown mount_cases (split_on comma opts))
unfolding apply_mount_opts
apply_mount_opts-last_word opts st = (
  λ k. apply_words-flags mount_cases k (split_on comma opts) st,
  apply_words-data mount_cases (split_on comma opts) st,
)
