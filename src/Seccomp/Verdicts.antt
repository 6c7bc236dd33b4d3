-- ===== src/Seccomp/Verdicts.antt =====
-- What the filter says of a system call.
use asterkube.Prelude.{ℕ, ◌+◌, true, false, ◌==◌, Option, some, ◌≡◌, refl, ap, ◌∙◌, if◌then◌else◌}
use asterkube.Seccomp.{
  build_filter, audit_arch_x86_64, ret_kill_process, ret_allow, SeccompData, Machine,
}

-- Another architecture ends the process; the system call that is aimed at has the action; all others are allowed.
abbrev pub verdict : ℕ → ℕ → SeccompData → ℕ
verdict target action d =
    if d.arch == audit_arch_x86_64
    then if d.nr == target then action else ret_allow
    else ret_kill_process

module _ (m : Machine) (target action : ℕ) (d : SeccompData) where
  abbrev At : ℕ → ℕ → Option ℕ
  At pc a = m.eval (build_filter target action) pc a d

  from_number : (a : ℕ) → At 3 a ≡ some (if d.nr == target then action else ret_allow)
  unfolding build_filter
  from_number a =
      m.load _ 3 a d _ refl refl
      ∙ ap (At 4) (m.word_nr d)
      ∙ m.jump _ 4 d.nr d _ refl refl
      ∙ (elim (d.nr == target)
          as (λ b. At (5 + (if b then 0 else 1)) d.nr ≡ some (if b then action else ret_allow)) [
            | true ↦ m.return _ 5 d.nr d _ refl refl
            | false ↦ m.return _ 6 d.nr d _ refl refl
          ])

  -- On any machine of these laws the filter gives the verdict, whatever stands in the register at first.
  pub build_filter-verdict : (a : ℕ) → At 0 a ≡ some (verdict target action d)
  unfolding build_filter
  build_filter-verdict a =
      m.load _ 0 a d _ refl refl
      ∙ ap (At 1) (m.word_arch d)
      ∙ m.jump _ 1 d.arch d _ refl refl
      ∙ (elim (d.arch == audit_arch_x86_64)
          as (λ b.
            At (2 + (if b then 1 else 0)) d.arch
            ≡ some (if b then if d.nr == target then action else ret_allow else ret_kill_process)) [
              | true ↦ from_number d.arch
              | false ↦ m.return _ 2 d.arch d _ refl refl
            ])
