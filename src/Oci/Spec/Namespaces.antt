-- ===== src/Oci/Spec/Namespaces.antt =====
-- Which namespaces a container gets.
use asterkube.Prelude.{
  ℕ, Bool, true, false, List, [], ◌∷◌, ◌++◌, Option, none, some, ◌≡◌, refl, sym, ap, ◌∙◌, subst,
  arith, max, if◌then◌else◌, ◌==◌, ◌⊎◌, inl, inr, Bool-cases, All,
}
use asterkube.Prelude.Bits.{bit, bit-bit_or, bit-le_one, bit_and-power, bit-power, bit-zero}
use asterkube.Prelude.Text.{str_eq}
use asterkube.Oci.Spec.{
  OciNamespace, OciLinux, OciSpec, fresh_flag, with_flag, fresh_flags, always_mount_ns,
  clone_flags_for, clone_newns, join_flag, Joined, JoinError, JoinRun, JoinEnv, join_outcome,
  join_one, join_all, join_namespaces,
}

-- The bit that a namespace asks for where it is to be made.
abbrev pub flag_bit : ℕ → Option ℕ → ℕ
flag_bit k none = 0
flag_bit k (some flag) = bit k flag

unfoldable pub asked : ℕ → List OciNamespace → ℕ
asked k [] = 0
asked k (ns ∷ more) =
    let rest = asked k more in
    if str_eq ns.path "" then max (flag_bit k (fresh_flag ns.ns_type)) rest else rest

bit-with_flag :
    (k : ℕ) (o : Option ℕ) (f : ℕ) → bit k (with_flag o f) ≡ max (bit k f) (flag_bit k o)
bit-with_flag k none f = omega arith
bit-with_flag k (some flag) f = bit-bit_or k f flag

bit-fresh_flags :
    (k : ℕ) (nss : List OciNamespace) (f : ℕ)
    → bit k (fresh_flags nss f) ≡ max (bit k f) (asked k nss)
unfolding fresh_flags asked
bit-fresh_flags k [] f = omega arith
bit-fresh_flags k (ns ∷ more) f =
    bit-fresh_flags k more (if str_eq ns.path "" then with_flag (fresh_flag ns.ns_type) f else f)
    ∙ ground (arith, bit-with_flag k (fresh_flag ns.ns_type) f)

bit-only_mount : (k : ℕ) → (k ≡ 17) ⊎ (bit k clone_newns ≡ 0)
bit-only_mount k = elim (Bool-cases (k == 17)) [
  | inl e ↦ inl (ground arith)
  | inr e ↦ inr (bit-power k 17 (ground arith))
]

bit-always_mount_ns : (k f : ℕ) → bit k (always_mount_ns f) ≡ max (bit k f) (bit k clone_newns)
unfolding always_mount_ns
bit-always_mount_ns k f = elim (bit-only_mount k) [
  | inl e ↦
      subst (λ j. bit j (always_mount_ns f) ≡ max (bit j f) (bit j clone_newns)) (sym e)
        (ground (arith, bit_and-power 17 f, bit-bit_or 17 f clone_newns, bit-le_one 17 f))
  | inr e ↦ ground (arith, e, bit-bit_or k f clone_newns)
]

-- What a container's clone flags are: its own mount namespace in any case, and each other namespace
-- exactly if the configuration names one of its type without a path.
pub clone_flags_for_lem :
    (spec : OciSpec) (linux : OciLinux) (k : ℕ)
    → spec.linux ≡ some linux
    → bit k (clone_flags_for spec) ≡ max (asked k linux.namespaces) (bit k clone_newns)
unfolding clone_flags_for
clone_flags_for_lem spec linux k e = rw e (
    bit-always_mount_ns k (fresh_flags linux.namespaces 0)
    ∙ ground (arith, bit-fresh_flags k linux.namespaces 0, bit-zero k))

-- The namespaces that are joined, if nothing fails.
unfoldable pub to_join : List OciNamespace → List Joined
to_join [] = []
to_join (ns ∷ more) =
    let rest = to_join more in
    if str_eq ns.path "" then rest else elim (join_flag ns.ns_type) [
      | none ↦ rest
      | some flag ↦ record { path = ns.path; flag = flag } ∷ rest
    ]

-- A namespace whose file opens and that setns(2) enters.
abbrev pub CanEnter : JoinEnv → Joined → Type 0
CanEnter env j = (env.open_errno j.path ≡ none) × (env.setns_errno j.path ≡ none)

-- One whose file does not open, or that setns(2) does not enter.
abbrev pub CannotEnter : JoinEnv → Joined → Type 0
CannotEnter env j =
    (e : ℕ) × ((env.open_errno j.path ≡ some e)
      ⊎ ((env.open_errno j.path ≡ none) × (env.setns_errno j.path ≡ some e)))

-- All were entered and there is no error, or there is one and the next could not be entered.
abbrev pub Stops : JoinEnv → Option JoinError → List Joined → Type 0
Stops env err [] = err ≡ none
Stops env err (j ∷ more) = CannotEnter env j × ((e : JoinError) × (err ≡ some e))

-- A run that enters namespaces of a list up to the first that cannot be entered.
abbrev pub Enters : JoinEnv → JoinRun → List Joined → Type 0
Enters env run all =
    All (CanEnter env) run.joined
    × ((left : List Joined) × (run.joined ++ left ≡ all) × Stops env run.err left)

module _ (env : JoinEnv) (ns : OciNamespace) (rest : JoinRun) (all : List Joined) where
  join_outcome-Enters :
      (flag : ℕ) (a b : Option ℕ)
      → env.open_errno ns.path ≡ a
      → env.setns_errno ns.path ≡ b
      → Enters env rest all
      → Enters env (join_outcome ns flag a b rest) (record { path = ns.path; flag = flag } ∷ all)
  join_outcome-Enters flag (some e) b p q h = (tt, (_, refl, ((e, inl p), (_, refl))))
  join_outcome-Enters flag none (some e) p q h = (tt, (_, refl, ((e, inr (p, q)), (_, refl))))
  join_outcome-Enters flag none none p q h = (
    ((p, q), h.0),
    (h.1.0, ap (λ (js : List Joined). record { path = ns.path; flag = flag } ∷ js) h.1.1, h.1.2),
  )

  -- A namespace that is passed over, or entered.
  choice-Enters :
      (fresh : Bool) (o : Option ℕ)
      → Enters env rest all
      → Enters env
          (if fresh then rest else elim o [ none ↦ rest | some flag ↦ join_one env ns flag rest ])
          (if fresh
            then all
            else elim o [ none ↦ all | some flag ↦ record { path = ns.path; flag = flag } ∷ all ])
  unfolding join_one
  choice-Enters true o h = h
  choice-Enters false none h = h
  choice-Enters false (some flag) h =
      join_outcome-Enters flag (env.open_errno ns.path) (env.setns_errno ns.path) refl refl h

join_all-Enters :
    (env : JoinEnv) (nss : List OciNamespace) → Enters env (join_all env nss) (to_join nss)
unfolding join_all to_join
join_all-Enters env [] = (tt, ([], refl, refl))
join_all-Enters env (ns ∷ more) =
    choice-Enters env ns (join_all env more) (to_join more) (str_eq ns.path "")
      (join_flag ns.ns_type) (join_all-Enters env more)

-- The namespaces that a container's init enters are, in the order of the configuration, those that have
-- a path and a type that can be entered, up to the first whose file does not open or that setns(2) refuses: each one
-- before it was opened and entered, and there is an error exactly where there is such a one.
pub join_namespaces-Enters :
    (env : JoinEnv) (spec : OciSpec) (linux : OciLinux)
    → spec.linux ≡ some linux
    → Enters env (join_namespaces env spec) (to_join linux.namespaces)
unfolding join_namespaces
join_namespaces-Enters env spec linux e = rw e (join_all-Enters env linux.namespaces)
