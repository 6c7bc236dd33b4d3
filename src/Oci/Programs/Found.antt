-- ===== src/Oci/Programs/Found.antt =====
-- What the searches for a program find.
use asterkube.Prelude.{
  List, [], ◌∷◌, Option, none, some, ◌≡◌, refl, ap, subst, or_else, arith, String, true,
  if◌then◌else◌, if_cases, Option-both,
}
use asterkube.Prelude.Text.{str_eq, str_append, has_prefix, contains_byte, split_on}
use asterkube.Oci.Programs.{
  Stat, resolve_in_rootfs, search_rootfs, is_file, trim_slashes, first_path, colon, slash,
}

-- A program that is there below the root filesystem.
abbrev pub IsThere : (String → Option Stat) → String → String → Type 0
IsThere stat rootfs p = (st : Stat) × (stat (str_append rootfs p) ≡ some st)

module _ (stat : String → Option Stat) (rootfs cmd : String) where
  some-IsThere :
      (o : Option Stat) (q p : String)
      → stat (str_append rootfs q) ≡ o
      → is_file o ≡ true
      → q ≡ p
      → IsThere stat rootfs p
  some-IsThere none q p h k e = absurd (ground arith)
  some-IsThere (some st) q p h k e = subst (IsThere stat rootfs) e (st, h)

  -- A search finds a file in one of the directories.
  search_rootfs-IsThere :
      (dirs : List String) (p : String)
      → search_rootfs stat rootfs cmd dirs ≡ some p
      → IsThere stat rootfs p
  unfolding search_rootfs
  search_rootfs-IsThere [] p = λ h. absurd (ground arith)
  search_rootfs-IsThere (dir ∷ dirs) p =
      let cand = str_append (trim_slashes dir) (str_append "/" cmd) in
      let later = search_rootfs-IsThere dirs p in
      if_cases Found (str_eq dir "") (λ e. later)
        (λ e.
          if_cases Found (is_file (stat (str_append rootfs cand)))
            (λ k h. some-IsThere _ cand p refl k (ap (λ o. or_else o p) h)) (λ k. later))
    where
      Found : Option String → Type 0
      Found o = o ≡ some p → IsThere stat rootfs p

  -- What exec runs in a container is there below the container's root filesystem, whether it was named by
  -- its path or searched for in the environment's PATH.
  pub resolve_in_rootfs-IsThere :
      (env : List String) (p : String)
      → resolve_in_rootfs stat rootfs cmd env ≡ some p
      → IsThere stat rootfs p
  unfolding resolve_in_rootfs
  resolve_in_rootfs-IsThere env p =
      let abs = if has_prefix cmd "/" then cmd else str_append "/" cmd in
      if_cases Found (contains_byte slash cmd)
        (λ e.
          Option-both Found (stat (str_append rootfs abs)) (λ k h. absurd (ground arith))
            (λ st k h. subst (IsThere stat rootfs) (ap (λ o. or_else o p) h) (st, k)))
        (λ e. search_rootfs-IsThere (split_on colon (first_path env)) p)
    where
      Found : Option String → Type 0
      Found o = o ≡ some p → IsThere stat rootfs p
