-- ===== src/Node/Bridged/Isolation.antt =====
-- The labels of tenants around the run of the bridged pods.
use asterkube.Prelude.{ℕ, false, List, [], ◌∷◌, ◌≡◌, if_both, Option-both, String}
use asterkube.Prelude.Prog.{
  Ensures, Ensures-run, Ensures-bind, Makes, Makes-bind, Makes-Ensures, Interleaves,
  Interleaves-keeps,
}
use asterkube.Prelude.{not}
use asterkube.Prelude.Int.{ℤ}
use asterkube.Prelude.Text.{str_eq}
use asterkube.Inet.{parse_ip4}
use asterkube.Node.{
  panics, panic_count, PodSpec, PodNetwork, NodeCall, labels_ip, Answer, number, NodeProg,
  NodeHistory, Kernel, is_refused,
}
use asterkube.Node.Tenants.{mac_mode_permissive, apply_tenant_labels}
use asterkube.Node.Tenants.Labels.{
  label_of, mode_of, is_labelled, Restores, apply_tenant_labels-Keeps, cleanup_tenant_labels-clears,
  cleanup_tenant_labels-permissive,
}
use asterkube.Node.Bridged.{
  Bridges, RunsBridged, no_netlink, together, dies, on_bridges, prepared, all_pods, prepare_bridges,
  create_bridges, create_one, address_bridge, program_dnat, add_service_dnat, network_of,
  bridge_index, found_bridge, opened, service_vip_addr, service_vport,
}
use asterkube.Node.Bridged.PodCalls.{HasCommand, IsPodCall, pod_programs-IsPodProg}
use asterkube.Prelude.{suc, ◌≤◌, ◌++◌, refl, arith, All}

-- A call of a pod leaves every label.
pub pod_call_label :
    (i x : ℕ) (c : NodeCall) (r : Answer) (h : NodeHistory)
    → IsPodCall c
    → label_of h i ≡ x
    → label_of ((c, r) ∷ h) i ≡ x
pod_call_label i x (labels_ip ip t) r h p e = absurd p
pod_call_label i x _ r h p e = e

abbrev IsPodProg : {A : Type 0} → NodeProg A → Type 0
IsPodProg p = Makes IsPodCall p

add_service_dnat-IsPodProg :
    (vip : String) (vport : ℤ) (backend : String) (bport : ℤ) (proto : ℕ)
    → IsPodProg (add_service_dnat vip vport backend bport proto)
unfolding add_service_dnat
add_service_dnat-IsPodProg vip vport backend bport proto =
    Option-both IsPodProg (parse_ip4 vip) (λ e. tt)
      (λ v e. Option-both IsPodProg (parse_ip4 backend) (λ e. tt) (λ b e. (tt, λ r. tt)))

program_dnat-IsPodProg : (specs : List PodSpec) → IsPodProg (program_dnat specs)
unfolding program_dnat
program_dnat-IsPodProg [] = tt
program_dnat-IsPodProg (spec ∷ specs) =
    let rule = add_service_dnat-IsPodProg service_vip_addr service_vport (network_of spec).pod_ip in
    if_both IsPodProg (not (str_eq (network_of spec).service_role "backend"))
      (program_dnat-IsPodProg specs)
      (Makes-bind IsPodCall _ _ (rule _ 17)
        (λ u. Makes-bind IsPodCall _ _ (rule _ 17) (λ u. rule _ 6)))

address_bridge-IsPodProg :
    (n : PodNetwork) (idx : ℕ) (bridges : Bridges) → IsPodProg (address_bridge n idx bridges)
unfolding address_bridge
address_bridge-IsPodProg n idx bridges =
    (tt, λ r. if_both IsPodProg (is_refused r) tt (if_both IsPodProg n.uplink (tt, λ r. tt) tt))

found_bridge-IsPodProg :
    (n : PodNetwork) (bridges : Bridges) (r : Answer) → IsPodProg (found_bridge n bridges r)
found_bridge-IsPodProg n bridges (number idx) = address_bridge-IsPodProg n idx bridges
found_bridge-IsPodProg n bridges _ = tt

create_one-IsPodProg : (n : PodNetwork) (bridges : Bridges) → IsPodProg (create_one n bridges)
unfolding create_one
create_one-IsPodProg n bridges =
    (tt, λ r. if_both IsPodProg (is_refused r) tt (tt, λ q. found_bridge-IsPodProg n bridges q))

create_bridges-IsPodProg :
    (specs : List PodSpec) (bridges : Bridges) → IsPodProg (create_bridges specs bridges)
unfolding create_bridges
create_bridges-IsPodProg [] bridges = tt
create_bridges-IsPodProg (spec ∷ specs) bridges =
    Option-both IsPodProg (bridge_index (network_of spec).bridge bridges)
      (λ e.
        Makes-bind IsPodCall (create_one (network_of spec) bridges) _
          (create_one-IsPodProg (network_of spec) bridges)
          (λ more. create_bridges-IsPodProg specs more))
      (λ idx e. create_bridges-IsPodProg specs bridges)

-- The preparation leaves the label of an address that is no tenant's.
prepare_bridges-keeps :
    (i : ℕ) (specs : List PodSpec) (h : NodeHistory)
    → is_labelled specs i ≡ false
    → label_of h i ≡ 0
    → Ensures (λ b g. label_of g i ≡ 0) (prepare_bridges specs) h
unfolding prepare_bridges
prepare_bridges-keeps i specs h l e =
    let Q : NodeHistory → Type 0 = λ g. label_of g i ≡ 0 in
    Ensures-bind (λ b g. Q g) (λ b g. Q g) (create_bridges specs []) _ h
      (Makes-Ensures IsPodCall Q (pod_call_label i 0) (create_bridges specs []) h
        (create_bridges-IsPodProg specs []) e)
      (λ b g q.
        Ensures-bind (λ u g. Q g) (λ b g. Q g) (program_dnat specs) _ g
          (Makes-Ensures IsPodCall Q (pod_call_label i 0) (program_dnat specs) g
            (program_dnat-IsPodProg specs) q)
          (λ u g q.
            Ensures-bind (λ u g. Q g) (λ b g. Q g) (apply_tenant_labels specs) _ g
              (apply_tenant_labels-Keeps i 0 specs g l q) (λ u g q. q)))

on_bridges-HasCommand :
    (bs : Bridges) (specs : List PodSpec)
    → All HasCommand specs
    → All (λ (p : PodSpec × ℕ). HasCommand p.0) (on_bridges bs specs)
unfolding on_bridges
on_bridges-HasCommand bs [] n = tt
on_bridges-HasCommand bs (spec ∷ specs) n =
    let rest = on_bridges-HasCommand bs specs n.1 in
    Option-both (All (λ (p : PodSpec × ℕ). HasCommand p.0))
      (bridge_index (network_of spec).bridge bs) (λ e. rest) (λ idx e. (n.0, rest))

panic_count-append :
    (g : NodeHistory) (r : Answer) (h : NodeHistory)
    → suc (panic_count h) ≤ panic_count (g ++ (panics, r) ∷ h)
panic_count-append [] r h = omega arith
panic_count-append ((c, q) ∷ g) r h = one_more c q (g ++ (panics, r) ∷ h) (panic_count-append g r h)
  where
    one_more :
        (c : NodeCall) (q : Answer) (f : NodeHistory) {n : ℕ}
        → n ≤ panic_count f
        → n ≤ panic_count ((c, q) ∷ f)
    one_more panics q f l = omega (arith, l)
    one_more _ q f l = l

pod_call_panics :
    (n : ℕ) (c : NodeCall) (r : Answer) (h : NodeHistory)
    → IsPodCall c
    → panic_count h ≡ n
    → panic_count ((c, r) ∷ h) ≡ n
pod_call_panics n panics r h p e = absurd p
pod_call_panics n _ r h p e = e

-- Pods with commands do not panic.
pub pods-panic_count :
    (kernel : Kernel) (specs : List PodSpec) (h g : NodeHistory)
    → All HasCommand specs
    → Interleaves kernel (all_pods kernel specs h) (prepared kernel specs h).1 g
    → panic_count g ≡ panic_count (prepared kernel specs h).1
pods-panic_count kernel specs h g n runs =
    let start = panic_count (prepared kernel specs h).1 in
    Interleaves-keeps IsPodCall (λ g. panic_count g ≡ start) kernel (pod_call_panics start)
      (pod_programs-IsPodProg _ (on_bridges-HasCommand _ specs n)) refl runs

-- However the pods' calls interleave, and whatever fails: where no address has a tenant before, none has one
-- when runBridgedPods is done, and the kernel is permissive, if every pod has a command.
pub RunsBridged-Restored :
    (kernel : Kernel) (restores : Restores kernel) (specs : List PodSpec) (h g : NodeHistory)
    → All HasCommand specs
    → ((i : ℕ) → label_of h i ≡ 0)
    → mode_of h ≡ mac_mode_permissive
    → RunsBridged kernel specs h g
    → ((i : ℕ) → label_of g i ≡ 0) × (mode_of g ≡ mac_mode_permissive)
RunsBridged-Restored kernel restores specs h g n l m (no_netlink e) = (l, m)
RunsBridged-Restored kernel restores specs h g n l m (together e f runs alive) = (
  (λ i. cleanup_tenant_labels-clears kernel restores i specs f (λ unlabelled.
      Interleaves-keeps IsPodCall (λ g. label_of g i ≡ 0) kernel (pod_call_label i 0)
        (pod_programs-IsPodProg _ (on_bridges-HasCommand _ specs n))
        (Ensures-run (λ b g. label_of g i ≡ 0) kernel (prepare_bridges specs) (opened kernel h)
          (prepare_bridges-keeps i specs (opened kernel h) unlabelled (l i)))
        runs)),
  cleanup_tenant_labels-permissive kernel restores 0 specs f,
)
RunsBridged-Restored kernel restores specs h g n l m (dies e later before r runs first) =
    let none_more = pods-panic_count kernel specs h _ n runs in
    absurd (omega (arith, none_more, first, panic_count-append later r before))
