-- ===== src/Node/Tenants/Labels.antt =====
-- The labels that the agent's calls leave, and how they are taken away again.
use asterkube.Prelude.{
  ℕ, Bool, true, false, ◌&&◌, ◌||◌, not, ◌==◌, List, [], ◌∷◌, Option, none, some, ◌≡◌, inl, inr,
  Bool-cases, if◌then◌else◌, if_both, Option-both, arith, String,
}
use asterkube.Prelude.Prog.{Ensures, Ensures-run, Ensures-bind, run, run-bind}
use asterkube.Node.{PodSpec, labels_ip, sets_mode, NodeProg, NodeHistory, Kernel, is_refused}
use asterkube.Node.Tenants.{
  tenant_ip, ip_to_be, label_pods, apply_tenant_labels, unlabel_pods, cleanup_tenant_labels,
  mac_mode_permissive,
}

-- The tenant of an address, by the last label that the kernel took.
abbrev pub label_of : NodeHistory → ℕ → ℕ
label_of [] i = 0
label_of ((labels_ip ip t, r) ∷ h) i = if not (is_refused r) && ip == i then t else label_of h i
label_of (x ∷ h) i = label_of h i

abbrev pub mode_of : NodeHistory → ℕ
mode_of [] = mac_mode_permissive
mode_of ((sets_mode m, r) ∷ h) = if is_refused r then mode_of h else m
mode_of (x ∷ h) = mode_of h

abbrev is_address : Option String → ℕ → Bool
is_address none i = false
is_address (some ip) i = ip_to_be ip == i

-- The addresses that the pods' tenants are put on.
abbrev pub is_labelled : List PodSpec → ℕ → Bool
is_labelled [] i = false
is_labelled (s ∷ specs) i = is_address (tenant_ip s) i || is_labelled specs i

-- A kernel that takes labels away and goes back to the permissive mode.
abbrev pub Restores : Kernel → Type 0
Restores kernel =
    ((h : NodeHistory) (ip : ℕ) → is_refused (kernel h (labels_ip ip 0)) ≡ false)
    × ((h : NodeHistory) → is_refused (kernel h (sets_mode mac_mode_permissive)) ≡ false)

module _ (i x : ℕ) where
  abbrev Keeps : {A : Type 0} → NodeHistory → NodeProg A → Type 0
  Keeps h p = Ensures (λ a g. label_of g i ≡ x) p h

  label_pods-Keeps :
      (specs : List PodSpec) (b : Bool) (h : NodeHistory)
      → is_labelled specs i ≡ false
      → label_of h i ≡ x
      → Keeps h (label_pods specs b)
  unfolding label_pods
  label_pods-Keeps [] b h l e = e
  label_pods-Keeps (s ∷ specs) b h l e =
      Option-both (Keeps h) (tenant_ip s) (λ n. label_pods-Keeps specs b h (ground (arith, l)) e)
        (λ ip n r. label_pods-Keeps specs _ _ (ground (arith, l)) (ground (arith, l, n, e)))

  pub apply_tenant_labels-Keeps :
      (specs : List PodSpec) (h : NodeHistory)
      → is_labelled specs i ≡ false
      → label_of h i ≡ x
      → Keeps h (apply_tenant_labels specs)
  unfolding apply_tenant_labels
  apply_tenant_labels-Keeps specs h l e =
      Ensures-bind (λ a g. label_of g i ≡ x) (λ a g. label_of g i ≡ x) (label_pods specs false) _ h
        (label_pods-Keeps specs false h l e) (λ b g k. if_both (Keeps g) b (λ r. k) k)

unlabel_pods-keeps :
    (i : ℕ) (specs : List PodSpec) (h : NodeHistory)
    → label_of h i ≡ 0
    → Ensures (λ a g. label_of g i ≡ 0) (unlabel_pods specs) h
unfolding unlabel_pods
unlabel_pods-keeps i [] h e = e
unlabel_pods-keeps i (s ∷ specs) h e =
    Option-both (λ (p : NodeProg (Unit {0})). Ensures (λ a g. label_of g i ≡ 0) p h) (tenant_ip s)
      (λ n. unlabel_pods-keeps i specs h e)
      (λ ip n r. unlabel_pods-keeps i specs _ (ground (arith, e)))

module _ (kernel : Kernel) (restores : Restores kernel) (i : ℕ) where
  unlabel_pods-clears :
      (specs : List PodSpec) (h : NodeHistory)
      → is_labelled specs i ≡ true
      → label_of (run kernel (unlabel_pods specs) h).1 i ≡ 0
  unfolding unlabel_pods
  unlabel_pods-clears [] h l = absurd (ground arith)
  unlabel_pods-clears (s ∷ specs) h l =
      Option-both (λ (p : NodeProg (Unit {0})). label_of (run kernel p h).1 i ≡ 0) (tenant_ip s)
        (λ n. unlabel_pods-clears specs h (ground (arith, l)))
        (λ ip n.
          let g = (labels_ip (ip_to_be ip) 0, kernel h (labels_ip (ip_to_be ip) 0)) ∷ h in
          elim (Bool-cases (ip_to_be ip == i)) [
            | inl here ↦
                Ensures-run (λ a g. label_of g i ≡ 0) kernel (unlabel_pods specs) g
                  (unlabel_pods-keeps i specs g (ground (arith, here, restores.0 h (ip_to_be ip))))
            | inr away ↦ unlabel_pods-clears specs g (ground (arith, l, n, away))
          ])

  -- After the cleanup an address has no label, if the others had none.
  pub cleanup_tenant_labels-clears :
      (specs : List PodSpec) (h : NodeHistory)
      → (is_labelled specs i ≡ false → label_of h i ≡ 0)
      → label_of (run kernel (cleanup_tenant_labels specs) h).1 i ≡ 0
  unfolding cleanup_tenant_labels
  cleanup_tenant_labels-clears specs h l =
      rw (run-bind kernel (unlabel_pods specs) _ h) (elim (Bool-cases (is_labelled specs i)) [
        | inl e ↦ unlabel_pods-clears specs h e
        | inr e ↦
            Ensures-run (λ a g. label_of g i ≡ 0) kernel (unlabel_pods specs) h
              (unlabel_pods-keeps i specs h (l e))
      ])

  pub cleanup_tenant_labels-permissive :
      (specs : List PodSpec) (h : NodeHistory)
      → mode_of (run kernel (cleanup_tenant_labels specs) h).1 ≡ mac_mode_permissive
  unfolding cleanup_tenant_labels
  cleanup_tenant_labels-permissive specs h =
      rw (run-bind kernel (unlabel_pods specs) _ h)
        (ground (arith, restores.1 (run kernel (unlabel_pods specs) h).1))
