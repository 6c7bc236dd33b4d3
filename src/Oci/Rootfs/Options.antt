-- ===== src/Oci/Rootfs/Options.antt =====
-- The two readings of mount options, the container runtime's and the mount command's.
use asterkube.Prelude.{
  true, false, List, [], ◌∷◌, Option, some, ◌≡◌, refl, sym, ap, ◌∙◌, subst, arith, if_cases, String,
  All, Option-cases, inl, inr, ◌⊎◌,
}
use asterkube.Prelude.Text.{str_eq, eq_iff}
use asterkube.Mount.Options.{
  Case, Effect, effect_of, mount_cases, MountOpts, no_opts, apply_words, apply_word, take_word,
}
use asterkube.Mount.Fstab.{one_of}
use asterkube.Oci.Rootfs.{oci_cases, mount_options}

-- The words that only the mount command takes for flags, or passes over.
unfoldable pub only_mount : List String
only_mount =
    "" ∷ "defaults" ∷ "loop" ∷ "rw" ∷ "move" ∷ "suid" ∷ "dev" ∷ "exec" ∷ "sync" ∷ "dirsync"
    ∷ "noatime" ∷ "nodiratime" ∷ "shared" ∷ "rshared" ∷ "private" ∷ "rprivate" ∷ "slave" ∷ "rslave"
    ∷ "silent" ∷ []

-- If every case of a table is one of another table's, or a word of a list, then what the table says of a
-- word that is not in the list the other says too.
found :
    (cases others : List Case) (words : List String) (w : String) (e : Effect)
    → All (λ c. (one_of c.word words ≡ true) ⊎ (effect_of others c.word ≡ some c.effect)) cases
    → one_of w words ≡ false
    → effect_of cases w ≡ some e
    → effect_of others w ≡ some e
unfolding effect_of
found [] others words w e all h = λ k. absurd (ground arith)
found (c ∷ cases) others words w e (p, all) h =
    if_cases (λ (r : Option Effect). r ≡ some e → effect_of others w ≡ some e) (str_eq w c.word)
      (λ same k.
        let q = (eq_iff w c.word).0 same in
        elim p [
          | inl t ↦
              let listed : one_of w words ≡ true = subst (λ v. one_of v words ≡ true) (sym q) t in
              absurd (ground arith)
          | inr t ↦ subst (λ v. effect_of others v ≡ some e) (sym q) (t ∙ k)
        ])
      (λ other k. found cases others words w e all h k)

oci_in_mount :
    All (λ c. (one_of c.word [] ≡ true) ⊎ (effect_of mount_cases c.word ≡ some c.effect)) oci_cases
unfolding oci_cases mount_cases effect_of
oci_in_mount = ground arith

mount_in_oci :
    All
      (λ c. (one_of c.word only_mount ≡ true) ⊎ (effect_of oci_cases c.word ≡ some c.effect))
      mount_cases
unfolding oci_cases mount_cases effect_of one_of only_mount
mount_in_oci = ground arith

same_effect :
    (w : String) → one_of w only_mount ≡ false → effect_of oci_cases w ≡ effect_of mount_cases w
same_effect w h = elim (Option-cases (effect_of oci_cases w)) [
  | inr (e, k) ↦ k ∙ sym (found oci_cases mount_cases [] w e oci_in_mount (unfold one_of in refl) k)
  | inl k ↦ elim (Option-cases (effect_of mount_cases w)) [
    | inl k' ↦ k ∙ sym k'
    | inr (e, k') ↦ found mount_cases oci_cases only_mount w e mount_in_oci h k' ∙ sym k'
  ]
]

same_words :
    (ws : List String) (st : MountOpts)
    → All (λ w. one_of w only_mount ≡ false) ws
    → apply_words oci_cases ws st ≡ apply_words mount_cases ws st
unfolding apply_words apply_word
same_words [] st all = refl
same_words (w ∷ ws) st (h, all) =
    same_words ws (take_word (effect_of oci_cases w) w st) all
    ∙ ap (λ d. apply_words mount_cases ws (take_word d w st)) (same_effect w h)

-- The container runtime and the mount command read a list of options alike, flags and data, unless one
-- of them is a word that only the command knows.
pub mount_options-agree :
    (ws : List String)
    → All (λ w. one_of w only_mount ≡ false) ws
    → mount_options ws ≡ apply_words mount_cases ws no_opts
unfolding mount_options
mount_options-agree ws all = same_words ws no_opts all
