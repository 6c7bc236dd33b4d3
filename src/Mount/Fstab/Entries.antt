-- ===== src/Mount/Fstab/Entries.antt =====
-- What the options of an fstab entry come to.
use asterkube.Prelude.{
  or_else, ℕ, false, List, [], ◌∷◌, ◌++◌, Option, none, some, ◌≡◌, refl, sym, ap, ap₂, ◌∙◌, subst,
  arith, if_both, if_cases, String, ◌==◌, All,
}
use Prim.Native.Char.{Char, code}
use asterkube.Prelude.Text.{str_eq, push_front, split_on, join}
use asterkube.Prelude.Bits.{bit}
use asterkube.Mount.Options.{
  Effect, MountOpts, no_opts, apply_mount_opts, apply_words, apply_word, comma, effect_of,
  mount_cases,
}
use asterkube.Mount.Options.LastWord.{
  split_on-append, apply_words-flags, apply_words-data, last_said, unknown,
}
use asterkube.Mount.Boot.{MountSpec}
use asterkube.Mount.Fstab.{kept, no_auto, is_pseudo, entry}

-- A text that splitting leaves whole.
abbrev IsWord : String → Type 0
IsWord w = split_on comma w ≡ w ∷ []

push_front-IsWord :
    (c : Char) (ws : List String)
    → (code c == comma) ≡ false
    → All IsWord ws
    → All IsWord (push_front c ws)
unfolding split_on
push_front-IsWord c [] h all = (ground arith, tt)
push_front-IsWord c (w ∷ ws) h (p, all) = (ground (arith, p), all)

split_on-IsWord : (s : String) → All IsWord (split_on comma s)
unfolding split_on
split_on-IsWord String.[] = (refl, tt)
split_on-IsWord (String.◌∷◌ c s) =
    if_cases (λ (ws : List String). All IsWord ws) (code c == comma)
      (λ e. (refl, split_on-IsWord s))
      (λ e. push_front-IsWord c (split_on comma s) e (split_on-IsWord s))

split_on-join :
    (w : String) (ws : List String)
    → All IsWord (w ∷ ws)
    → split_on comma (join "," (w ∷ ws)) ≡ w ∷ ws
unfolding join
split_on-join w [] (p, all) = p
split_on-join w (v ∷ ws) (p, all) =
    split_on-append w (join "," (v ∷ ws)) ∙ ap₂ (λ a b. a ++ b) p (split_on-join v ws all)

-- Words that are joined and applied are applied.
apply_mount_opts-join :
    (ws : List String) (st : MountOpts)
    → All IsWord ws
    → apply_mount_opts (join "," ws) st ≡ apply_words mount_cases ws st
unfolding apply_mount_opts
apply_mount_opts-join [] st all =
    unfold join split_on apply_words apply_word effect_of mount_cases in refl
apply_mount_opts-join (w ∷ ws) st all =
    ap (λ us. apply_words mount_cases us st) (split_on-join w ws all)

-- What the words of a mount's data are: no word for the init, and no mount flag.
abbrev pub IsData : String → Type 0
IsData w = (str_eq w "noauto" ≡ false) × (is_pseudo w ≡ false) × (effect_of mount_cases w ≡ none)

kept-IsWord : (ws : List String) → All IsWord ws → All IsWord (kept ws)
unfolding kept
kept-IsWord [] all = tt
kept-IsWord (o ∷ ws) (p, all) =
    let rest = kept-IsWord ws all in
    if_both (All IsWord) (str_eq o "noauto") rest
      (if_both (All IsWord) (is_pseudo o) rest (p, rest))

one_more_word :
    (o : String) (d : Option Effect)
    → effect_of mount_cases o ≡ d
    → (later : List String) → str_eq o "noauto" ≡ false
    → is_pseudo o ≡ false
    → All IsData later
    → All IsData (elim d [ some e ↦ later | none ↦ o ∷ later ])
one_more_word o (some e) k later named real all = all
one_more_word o none k later named real all = ((named, real, k), all)

unknown-IsData : (ws : List String) → All IsData (unknown mount_cases (kept ws))
unfolding kept unknown
unknown-IsData [] = tt
unknown-IsData (o ∷ ws) =
    if_cases (λ us. All IsData (unknown mount_cases us)) (str_eq o "noauto")
      (λ e. unknown-IsData ws)
      (λ named.
        if_cases (λ us. All IsData (unknown mount_cases us)) (is_pseudo o) (λ e. unknown-IsData ws)
          (λ real.
            one_more_word o (effect_of mount_cases o) refl (unknown mount_cases (kept ws)) named
              real (unknown-IsData ws)))

-- The flags are what the last of the words says that names each, and the data are words that steer
-- neither the init nor the flags.
abbrev pub ComesFrom : List String → MountSpec → Type 0
ComesFrom ws spec =
    ((k : ℕ) → bit k spec.flags ≡ or_else (last_said mount_cases k (kept ws)) (bit k 0))
    × (spec.mount_data ≡ join "," (unknown mount_cases (kept ws)))
    × All IsData (unknown mount_cases (kept ws))

opts_applied :
    (ws : List String)
    → All IsWord ws
    → (o : MountOpts) → apply_mount_opts (join "," (kept ws)) no_opts ≡ o
    → ((k : ℕ) → bit k o.flags ≡ or_else (last_said mount_cases k (kept ws)) (bit k 0))
      × (o.data_words ≡ unknown mount_cases (kept ws))
opts_applied ws all o e =
    let applied : apply_words mount_cases (kept ws) no_opts ≡ o =
      sym (apply_mount_opts-join (kept ws) no_opts (kept-IsWord ws all)) ∙ e in
    (
      λ k.
          subst
            (λ (m : MountOpts).
              bit k m.flags ≡ or_else (last_said mount_cases k (kept ws)) (bit k 0))
            applied (apply_words-flags mount_cases k (kept ws) no_opts),
      subst (λ (m : MountOpts). m.data_words ≡ unknown mount_cases (kept ws)) applied
          (apply_words-data mount_cases (kept ws) no_opts),
    )

-- A line that yields an entry has no `noauto` among its options, and the entry's flags and data come
-- from the options that are kept: each flag from the last word that names it, and the data are all the
-- others of them, in their order, which steer neither the init nor a flag.
pub entry-ComesFrom :
    (source target fs_type opts : String) (spec : MountSpec)
    → entry source target fs_type opts ≡ some spec
    → (no_auto (split_on comma opts) ≡ false) × ComesFrom (split_on comma opts) spec
unfolding entry
entry-ComesFrom source target fs_type opts spec =
    let ws = split_on comma opts in
    let o = apply_mount_opts (join "," (kept ws)) no_opts in
    let applied = opts_applied ws (split_on-IsWord opts) o refl in
    if_cases (λ (r : Option MountSpec). r ≡ some spec → (no_auto ws ≡ false) × ComesFrom ws spec)
      (no_auto ws) (λ e h. absurd (ground arith))
      (λ e h. (
        e,
        subst (ComesFrom ws) (ap (λ r. or_else r spec) h)
            (applied.0, ap (join ",") applied.1, unknown-IsData ws),
      ))
