-- ===== src/Mount/Applet/Umount.antt =====
-- What a run of the umount command has done.
use asterkube.Prelude.{
  ℕ, ◌+◌, Bool, true, false, ◌||◌, List, [], ◌∷◌, ◌++◌, none, ◌≡◌, refl, sym, ap, ap₂, ◌∙◌, subst,
  arith, String, All, Option-both, map, if◌then◌else◌, bit_or, append_assoc, append-nil, Bool-cases,
  inl, inr,
}
use asterkube.Prelude.Text.{str_eq, eq_iff, has_prefix}
use asterkube.Mount.Applet.{
  Fails, CommandRun, UmountCall, UmountArgs, umount_args, umount_targets, run_umount,
}

abbrev call_for_target : ℕ → String → UmountCall
call_for_target flags t = record { target = t; flags = flags }

-- Whether one of two words stands among the arguments.
abbrev pub asks : String → String → List String → Bool
asks short long [] = false
asks short long (a ∷ args) = (str_eq a short || str_eq a long) || asks short long args

-- The arguments that do not start with a dash.
abbrev pub operands : List String → List String
operands [] = []
operands (a ∷ args) = let rest = operands args in if has_prefix a "-" then rest else a ∷ rest

-- MNT_FORCE is 1, and MNT_DETACH is 2.
abbrev pub flags_of : Bool → Bool → ℕ
flags_of force detach = (if force then 1 else 0) + (if detach then 2 else 0)

-- The unmounts that arguments ask for: one for each operand, forced if an option says so, and detached if one does.
abbrev pub asked_for : List String → List UmountCall
asked_for args =
    map (call_for_target (flags_of (asks "-f" "--force" args) (asks "-l" "--lazy" args)))
      (operands args)

abbrev ArgsAre : Bool → Bool → List String → UmountArgs → Type 0
ArgsAre force detach ts m = (m.flags ≡ flags_of force detach) × (m.targets ≡ ts)

add_detach : (f d : Bool) (n : ℕ) → n ≡ flags_of f d → bit_or n 2 ≡ flags_of f true
add_detach true true n e = rw e refl
add_detach true false n e = rw e refl
add_detach false true n e = rw e refl
add_detach false false n e = rw e refl

add_force : (f d : Bool) (n : ℕ) → n ≡ flags_of f d → bit_or n 1 ≡ flags_of true d
add_force true true n e = rw e refl
add_force true false n e = rw e refl
add_force false true n e = rw e refl
add_force false false n e = rw e refl

is_dashed : (a b : String) → str_eq a b ≡ true → has_prefix b "-" ≡ true → has_prefix a "-" ≡ true
is_dashed a b e h = subst (λ t. has_prefix t "-" ≡ true) (sym ((eq_iff a b).0 e)) h

lazy_apart :
    (a : String)
    → (str_eq a "-l" || str_eq a "--lazy") ≡ true
    → (str_eq a "-f" || str_eq a "--force") ≡ false
lazy_apart a h = elim (Bool-cases (str_eq a "-l")) [
  | inl e ↦
      subst (λ t. (str_eq t "-f" || str_eq t "--force") ≡ false) (sym ((eq_iff a "-l").0 e)) refl
  | inr e ↦
      subst (λ t. (str_eq t "-f" || str_eq t "--force") ≡ false)
        (sym ((eq_iff a "--lazy").0 (ground (arith, h, e)))) refl
]

either_dashed :
    (a b c : String)
    → (str_eq a b || str_eq a c) ≡ true
    → has_prefix b "-" ≡ true
    → has_prefix c "-" ≡ true
    → has_prefix a "-" ≡ true
either_dashed a b c h p q = elim (Bool-cases (str_eq a b)) [
  | inl e ↦ is_dashed a b e p
  | inr e ↦ is_dashed a c (ground (arith, h, e)) q
]

or_no : (b : Bool) → b ≡ b || false
or_no true = refl
or_no false = refl

or_true : (b : Bool) → true ≡ b || true
or_true true = refl
or_true false = refl

module _ (a : String) (args : List String) (m : UmountArgs) (f d : Bool) (ts : List String)
    (ih : (m : UmountArgs) (f d : Bool) (ts : List String)
      → ArgsAre f d ts m
      → ArgsAre
          (f || asks "-f" "--force" args)
          (d || asks "-l" "--lazy" args)
          (ts ++ operands args)
          (umount_args args m))
    (is : ArgsAre f d ts m) where
  abbrev AfterWord : Bool → Bool → Bool → Type 0
  AfterWord lazy force dashed =
      ArgsAre (f || (force || asks "-f" "--force" args)) (d || (lazy || asks "-l" "--lazy" args))
        (ts ++ (if dashed then operands args else a ∷ operands args))
        (umount_args args (
          if lazy
          then record m { flags = bit_or m.flags 2 }
          else if force
          then record m { flags = bit_or m.flags 1 }
          else if dashed
          then m
          else record m { targets = m.targets ++ a ∷ [] }))

  after_word :
      (lazy force dashed : Bool)
      → (lazy ≡ true → (force ≡ false) × (dashed ≡ true))
      → (force ≡ true → dashed ≡ true)
      → AfterWord lazy force dashed
  after_word true true dashed p q = absurd (ground (arith, (p refl).0))
  after_word true false false p q = absurd (ground (arith, (p refl).1))
  after_word true false true p q =
      let next =
        ih (record m { flags = bit_or m.flags 2 }) f true ts (add_detach f d m.flags is.0, is.1) in
      subst
        (λ b.
          ArgsAre (f || asks "-f" "--force" args) b (ts ++ operands args)
            (umount_args args (record m { flags = bit_or m.flags 2 })))
        (or_true d) next
  after_word false true false p q = absurd (ground (arith, q refl))
  after_word false true true p q =
      let next =
        ih (record m { flags = bit_or m.flags 1 }) true d ts (add_force f d m.flags is.0, is.1) in
      subst
        (λ b.
          ArgsAre b (d || asks "-l" "--lazy" args) (ts ++ operands args)
            (umount_args args (record m { flags = bit_or m.flags 1 })))
        (or_true f) next
  after_word false false true p q = ih m f d ts is
  after_word false false false p q =
      let next =
        ih (record m { targets = m.targets ++ a ∷ [] }) f d (ts ++ a ∷ [])
          (is.0, ap (λ us. us ++ a ∷ []) is.1) in
      (next.0, next.1 ∙ append_assoc ts (a ∷ []) (operands args))

umount_args-ArgsAre :
    (args : List String) (m : UmountArgs) (f d : Bool) (ts : List String)
    → ArgsAre f d ts m
    → ArgsAre
        (f || asks "-f" "--force" args)
        (d || asks "-l" "--lazy" args)
        (ts ++ operands args)
        (umount_args args m)
unfolding umount_args has_prefix
umount_args-ArgsAre [] m f d ts is =
    (is.0 ∙ ap₂ flags_of (or_no f) (or_no d), is.1 ∙ sym (append-nil ts))
umount_args-ArgsAre (a ∷ args) m f d ts is =
    after_word a args m f d ts (umount_args-ArgsAre args) is (str_eq a "-l" || str_eq a "--lazy")
      (str_eq a "-f" || str_eq a "--force") (has_prefix a "-")
      (λ e. (lazy_apart a e, either_dashed a "-l" "--lazy" e refl refl))
      (λ e. either_dashed a "-f" "--force" e refl refl)

-- A run that made some calls, none of which failed.
abbrev pub AllMade : (UmountCall → Fails) → List UmountCall → CommandRun UmountCall → Type 0
AllMade umount calls run = (run.calls ≡ calls) × All (λ c. umount c ≡ none) calls

targets-AllMade :
    (umount : UmountCall → Fails) (flags : ℕ) (ts : List String)
    → (umount_targets umount flags ts).exit_code ≡ 0
    → AllMade umount (map (call_for_target flags) ts) (umount_targets umount flags ts)
unfolding umount_targets
targets-AllMade umount flags [] = λ h. (refl, tt)
targets-AllMade umount flags (t ∷ ts) =
    Option-both
      (λ (r : CommandRun UmountCall).
        r.exit_code ≡ 0 → AllMade umount (map (call_for_target flags) (t ∷ ts)) r)
      (umount (call_for_target flags t))
      (λ e h.
        let rest = targets-AllMade umount flags ts h in
        (ap (λ cs. call_for_target flags t ∷ cs) rest.0, (e, rest.1)))
      (λ n e h. absurd (ground arith))

-- A umount that exits with 0 has unmounted each argument that does not start with a dash, in order, and none of them
-- failed: with MNT_FORCE exactly if one of the arguments is -f or --force, and MNT_DETACH exactly if one is -l or
-- --lazy, wherever they stand.
pub run_umount-AllMade :
    (umount : UmountCall → Fails) (args : List String)
    → (run_umount umount args).exit_code ≡ 0
    → AllMade umount (asked_for args) (run_umount umount args)
unfolding run_umount
run_umount-AllMade umount args h =
    let m = umount_args args (record { flags = 0; targets = [] }) in
    let is =
      umount_args-ArgsAre args (record { flags = 0; targets = [] }) false false [] (refl, refl) in
    subst (λ cs. AllMade umount cs (umount_targets umount m.flags m.targets))
      (ap₂ (λ n ts. map (call_for_target n) ts) is.0 is.1)
      (targets-AllMade umount m.flags m.targets h)
