-- ===== src/Node/Bridged/Addressed.antt =====
-- The bridges that pods are put on: createBridge, linkIndexByName and addAddrV4 have succeeded for each.
use asterkube.Prelude.{
  ℕ, false, List, [], ◌∷◌, some, String, ◌≡◌, refl, subst, if_cases, if_both, Option-both, inl, inr,
  Bool-cases, All, arith,
}
use asterkube.Prelude.Int.{ℤ}
use asterkube.Prelude.Text.{str_eq, eq_iff}
use asterkube.Prelude.Prog.{
  Occurs, Ensures, Ensures-run, Ensures-bind, Ensures-keeps, Ensures-weaken,
}
use asterkube.Node.{
  PodSpec, PodNetwork, NodeCall, creates_bridge, finds_link, adds_addr, Answer, number, NodeProg,
  NodeHistory, Kernel, is_refused,
}
use asterkube.Node.Tenants.{apply_tenant_labels}
use asterkube.Node.Bridged.{
  Bridges, bridge_index, network_of, address_bridge, found_bridge, create_one, create_bridges,
  program_dnat, prepare_bridges, on_bridges, prepared, opened,
}

abbrev pub IsCreated : String → NodeCall × Answer → Type 0
IsCreated name x = (x.0 ≡ creates_bridge name) × (is_refused x.1 ≡ false)

abbrev pub IsFound : String → ℕ → NodeCall × Answer → Type 0
IsFound name idx x = x ≡ (finds_link name, number idx)

abbrev pub IsAddressed : ℕ → NodeCall × Answer → Type 0
IsAddressed idx x =
    (ip : String) × (prefix : ℤ) × (x.0 ≡ adds_addr idx ip prefix) × (is_refused x.1 ≡ false)

-- A bridge that was created, found under its name with the index, and given an address.
abbrev pub Stands : NodeHistory → String → ℕ → Type 0
Stands h name idx =
    Occurs (IsCreated name) h × Occurs (IsFound name idx) h × Occurs (IsAddressed idx) h

abbrev AllStand : Bridges → NodeHistory → Type 0
AllStand bs h = All (λ (b : String × ℕ). Stands h b.0 b.1) bs

Stands-later :
    (name : String) (idx : ℕ) (x : NodeCall × Answer) (h : NodeHistory)
    → Stands h name idx
    → Stands (x ∷ h) name idx
Stands-later name idx x h s = (inr s.0, inr s.1, inr s.2)

AllStand-later :
    (bs : Bridges) (c : NodeCall) (r : Answer) (h : NodeHistory)
    → AllStand bs h
    → AllStand bs ((c, r) ∷ h)
AllStand-later [] c r h a = tt
AllStand-later (b ∷ bs) c r h a = (Stands-later b.0 b.1 (c, r) h a.0, AllStand-later bs c r h a.1)

module _ (n : PodNetwork) (bs : Bridges) where
  abbrev EndsStanding : NodeHistory → NodeProg Bridges → Type 0
  EndsStanding h p = Ensures AllStand p h

  address_bridge-stands :
      (idx : ℕ) (h : NodeHistory)
      → Occurs (IsCreated n.bridge) h
      → Occurs (IsFound n.bridge idx) h
      → AllStand bs h
      → EndsStanding h (address_bridge n idx bs)
  unfolding address_bridge
  address_bridge-stands idx h c f a = λ r.
      let g = (adds_addr idx n.gateway_ip n.prefix, r) ∷ h in
      let later = AllStand-later bs (adds_addr idx n.gateway_ip n.prefix) r h a in
      if_cases (EndsStanding g) (is_refused r) (λ e. later)
        (λ e.
          let s : Stands g n.bridge idx = (inr c, inr f, inl (n.gateway_ip, n.prefix, refl, e)) in
          if_both (EndsStanding g) n.uplink
            (λ u. (Stands-later n.bridge idx _ g s, AllStand-later bs _ u g later)) (s, later))

  found_bridge-stands :
      (r : Answer) (h : NodeHistory)
      → Occurs (IsCreated n.bridge) h
      → AllStand bs h
      → EndsStanding ((finds_link n.bridge, r) ∷ h) (found_bridge n bs r)
  found_bridge-stands (number idx) h c a =
      address_bridge-stands idx ((finds_link n.bridge, number idx) ∷ h) (inr c) (inl refl)
        (AllStand-later bs (finds_link n.bridge) (number idx) h a)
  found_bridge-stands r h c a = AllStand-later bs (finds_link n.bridge) r h a

  create_one-stands : (h : NodeHistory) → AllStand bs h → EndsStanding h (create_one n bs)
  unfolding create_one
  create_one-stands h a = λ r.
      let g = (creates_bridge n.bridge, r) ∷ h in
      let later = AllStand-later bs (creates_bridge n.bridge) r h a in
      if_cases (EndsStanding g) (is_refused r) (λ e. later)
        (λ e q. found_bridge-stands q g (inl (refl, e)) later)

create_bridges-stands :
    (specs : List PodSpec) (bs : Bridges) (h : NodeHistory)
    → AllStand bs h
    → Ensures AllStand (create_bridges specs bs) h
unfolding create_bridges
create_bridges-stands [] bs h a = a
create_bridges-stands (spec ∷ specs) bs h a =
    let n = network_of spec in
    Option-both (λ (p : NodeProg Bridges). Ensures AllStand p h) (bridge_index n.bridge bs)
      (λ e.
        Ensures-bind AllStand AllStand (create_one n bs) _ h (create_one-stands n bs h a)
          (λ more g s. create_bridges-stands specs more g s))
      (λ idx e. create_bridges-stands specs bs h a)

bridge_index-Stands :
    (name : String) (idx : ℕ) (bs : Bridges) (h : NodeHistory)
    → AllStand bs h
    → bridge_index name bs ≡ some idx
    → Stands h name idx
bridge_index-Stands name idx [] h a e = absurd (ground (arith, e))
bridge_index-Stands name idx (b ∷ bs) h a e = elim (Bool-cases (str_eq b.0 name)) [
  | inl s ↦
      let same : b.0 ≡ name = (eq_iff b.0 name).0 s in
      let index : b.1 ≡ idx = ground (arith, e, s) in
      subst (λ m. Stands h m idx) same (subst (λ i. Stands h b.0 i) index a.0)
  | inr s ↦ bridge_index-Stands name idx bs h a.1 (ground (arith, e, s))
]

-- Each pod that is started stands on a bridge.
abbrev pub AllOnBridges : List (PodSpec × ℕ) → NodeHistory → Type 0
AllOnBridges pods h = All (λ (p : PodSpec × ℕ). Stands h (network_of p.0).bridge p.1) pods

on_bridges-stand :
    (bs : Bridges) (specs : List PodSpec) (h : NodeHistory)
    → AllStand bs h
    → AllOnBridges (on_bridges bs specs) h
unfolding on_bridges
on_bridges-stand bs [] h a = tt
on_bridges-stand bs (spec ∷ specs) h a =
    let rest = on_bridges-stand bs specs h a in
    Option-both (λ (l : List (PodSpec × ℕ)). AllOnBridges l h)
      (bridge_index (network_of spec).bridge bs) (λ e. rest)
      (λ idx e. (bridge_index-Stands (network_of spec).bridge idx bs h a e, rest))

prepare_bridges-stands :
    (specs : List PodSpec) (h : NodeHistory) → Ensures AllStand (prepare_bridges specs) h
unfolding prepare_bridges
prepare_bridges-stands specs h =
    Ensures-bind AllStand AllStand (create_bridges specs []) _ h
      (create_bridges-stands specs [] h tt)
      (λ bs g a.
        Ensures-bind (λ u f. AllStand bs f) AllStand (program_dnat specs) _ g
          (Ensures-keeps (AllStand bs) (AllStand-later bs) (program_dnat specs) g a)
          (λ u g a.
            Ensures-bind (λ u f. AllStand bs f) AllStand (apply_tenant_labels specs) _ g
              (Ensures-keeps (AllStand bs) (AllStand-later bs) (apply_tenant_labels specs) g a)
              (λ u f a. a)))

-- When the pods are started, the bridge of each was created, found with the index that the pod's port is put on, and given
-- an address.
pub prepared-AllOnBridges :
    (kernel : Kernel) (specs : List PodSpec) (h : NodeHistory)
    → let before = prepared kernel specs h in AllOnBridges (on_bridges before.0 specs) before.1
prepared-AllOnBridges kernel specs h =
    Ensures-run (λ bs g. AllOnBridges (on_bridges bs specs) g) kernel (prepare_bridges specs)
      (opened kernel h)
      (Ensures-weaken AllStand (λ bs g. AllOnBridges (on_bridges bs specs) g)
        (prepare_bridges specs) (opened kernel h) (prepare_bridges-stands specs (opened kernel h))
        (λ bs g a. on_bridges-stand bs specs g a))
