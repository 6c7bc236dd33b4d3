-- ===== src/Node/Agent/Gathering.antt =====
-- The node loop runs the ordinary pods in order, gathers the others, and leaves no label behind.
use asterkube.Prelude.{
  ℕ, Bool, true, false, not, List, [], ◌∷◌, ◌++◌, Option, none, some, ◌≡◌, sym, ap, ◌∙◌,
  if◌then◌else◌, if_both, append-nil, append_assoc,
}
use asterkube.Prelude.Prog.{
  ret, ◌>>◌, ◌>>=◌, run, run-bind, Makes, Makes-bind, Makes-Ensures, Ensures-run,
}
use asterkube.Node.{
  PodSpec, PodNetwork, bridged, sets_mode, Answer, number, NodeCall, NodeProg, NodeHistory, Kernel,
  is_refused,
}
use asterkube.Node.Start.{PodStart, gave_up, panicked, running, start_pod_container}
use asterkube.Node.Tenants.{mac_mode_permissive}
use asterkube.Node.Tenants.Labels.{label_of, mode_of, Restores}
use asterkube.Prelude.{All, refl, subst, arith}
use asterkube.Node.Wait.{wait_pod}
use asterkube.Node.Bridged.PodCalls.{
  HasCommand, IsPodCall, start_pod_container-IsPodProg, signal_veth_created-IsPodProg,
  wait_pod-IsPodProg,
}
use asterkube.Node.Bridged.Isolation.{pod_call_label, RunsBridged-Restored}
use asterkube.Node.Agent.{
  host_link, host_setup_veth, host_env, host_wired, started_pod, run_pod, gather, gathered,
  RunsAgent, no_manifests, pod_panics, all_pods_run, with_demos, build_kube_proxy_demo_specs,
  build_tenant_demo_specs,
}

abbrev same : Bool → Bool → Bool
same true b = b
same false b = not b

abbrev pub keep : Bool → List PodSpec → List PodSpec
keep b [] = []
keep b (s ∷ specs) = let rest = keep b specs in if same b (bridged s) then s ∷ rest else rest

-- One after the other, up to a panic; whether there was none.
abbrev pub run_each : List PodSpec → NodeProg Bool
run_each [] = ret true
run_each (s ∷ specs) =
    let rest = run_each specs in run_pod s >>= λ alive. if alive then rest else ret false

-- The pods that are gathered, if no ordinary one panicked.
abbrev pub unless_panicked : List PodSpec → Bool × NodeHistory → Option (List PodSpec) × NodeHistory
unless_panicked found r = (if r.0 then some found else none, r.1)

after_pod :
    (kernel : Kernel) (specs found : List PodSpec)
    → ((g : NodeHistory)
        → run kernel (gather specs found) g
          ≡ unless_panicked (found ++ keep true specs) (run kernel (run_each (keep false specs)) g))
    → (alive : Bool) (g : NodeHistory)
    → run kernel (if alive then gather specs found else ret none) g
      ≡ unless_panicked
          (found ++ keep true specs)
          (run kernel (if alive then run_each (keep false specs) else ret false) g)
after_pod kernel specs found ih true g = ih g
after_pod kernel specs found ih false g = refl

module _ (kernel : Kernel) (s : PodSpec) (specs found : List PodSpec) (h : NodeHistory) where
  abbrev GathersAs : Bool → Type 0
  GathersAs b =
      run kernel
        (if b
          then gather specs (found ++ (s ∷ []))
          else run_pod s >>= λ alive. if alive then gather specs found else ret none)
        h
      ≡ unless_panicked (found ++ (if b then s ∷ keep true specs else keep true specs))
          (run kernel (run_each (if not b then s ∷ keep false specs else keep false specs)) h)

pub gather-run :
    (kernel : Kernel) (specs found : List PodSpec) (h : NodeHistory)
    → run kernel (gather specs found) h
      ≡ unless_panicked (found ++ keep true specs) (run kernel (run_each (keep false specs)) h)
unfolding gather
gather-run kernel [] found h = ap (λ l. (some l, h)) (sym (append-nil found))
gather-run kernel (s ∷ specs) found h = elim (bridged s) as (GathersAs kernel s specs found h) [
  | true ↦
      gather-run kernel specs (found ++ (s ∷ [])) h
      ∙ ap (λ l. unless_panicked l (run kernel (run_each (keep false specs)) h))
          (append_assoc found (s ∷ []) (keep true specs))
  | false ↦
      let ran = run kernel (run_pod s) h in
      run-bind kernel (run_pod s) (λ alive. if alive then gather specs found else ret none) h
      ∙ after_pod kernel specs found (λ g. gather-run kernel specs found g) ran.0 ran.1
      ∙ ap (unless_panicked (found ++ keep true specs)) (
          sym (
            run-bind kernel (run_pod s)
              (λ alive. if alive then run_each (keep false specs) else ret false) h))
]

abbrev IsPodProg : {A : Type 0} → NodeProg A → Type 0
IsPodProg p = Makes IsPodCall p

host_link-IsPodProg : (spec : PodSpec) (r : Answer) → IsPodProg (host_link spec r)
host_link-IsPodProg spec (number idx) = (tt, λ r. (tt, λ r. tt))
host_link-IsPodProg spec _ = (tt, λ r. tt)

host_setup_veth-IsPodProg : (spec : PodSpec) (pid : ℕ) → IsPodProg (host_setup_veth spec pid)
unfolding host_setup_veth
host_setup_veth-IsPodProg spec pid = (
  tt,
  λ r. if_both IsPodProg (is_refused r) tt (
    tt,
    λ q. if_both IsPodProg (is_refused q) (tt, λ r. tt) (tt, λ a. host_link-IsPodProg spec a),
  ),
)

host_wired-IsPodProg :
    (spec : PodSpec) (pid : ℕ) (o : Option PodNetwork) → IsPodProg (host_wired spec pid o)
host_wired-IsPodProg spec pid none = tt
host_wired-IsPodProg spec pid (some n) =
    Makes-bind IsPodCall (host_setup_veth spec pid) _ (host_setup_veth-IsPodProg spec pid)
      (λ u. signal_veth_created-IsPodProg spec)

started_pod-IsPodProg : (spec : PodSpec) (s : PodStart) → IsPodProg (started_pod spec s)
started_pod-IsPodProg spec (running pid) =
    Makes-bind IsPodCall (host_wired spec pid spec.network >> wait_pod spec pid) (λ u. ret true)
      (Makes-bind IsPodCall (host_wired spec pid spec.network) _
        (host_wired-IsPodProg spec pid spec.network) (λ u. wait_pod-IsPodProg spec pid))
      (λ u. tt)
started_pod-IsPodProg spec (gave_up f) = tt
started_pod-IsPodProg spec panicked = tt

run_pod-IsPodProg : (spec : PodSpec) → HasCommand spec → IsPodProg (run_pod spec)
unfolding run_pod
run_pod-IsPodProg spec n =
    Makes-bind IsPodCall (start_pod_container spec (host_env spec.network)) _
      (start_pod_container-IsPodProg spec (host_env spec.network) n)
      (λ s. started_pod-IsPodProg spec s)

gather-IsPodProg :
    (specs found : List PodSpec) → All HasCommand specs → IsPodProg (gather specs found)
unfolding gather
gather-IsPodProg [] found n = tt
gather-IsPodProg (s ∷ specs) found n =
    if_both IsPodProg (bridged s) (gather-IsPodProg specs (found ++ (s ∷ [])) n.1) (
      Makes-bind IsPodCall (run_pod s) _ (run_pod-IsPodProg s n.0)
        (λ alive. if_both IsPodProg alive (gather-IsPodProg specs found n.1) tt))

keep-HasCommand :
    (b : Bool) (specs : List PodSpec) → All HasCommand specs → All HasCommand (keep b specs)
keep-HasCommand b [] n = tt
keep-HasCommand b (s ∷ specs) n =
    let rest = keep-HasCommand b specs n.1 in
    if_both (All HasCommand) (same b (bridged s)) (n.0, rest) rest

All-append :
    (xs ys : List PodSpec) → All HasCommand xs → All HasCommand ys → All HasCommand (xs ++ ys)
All-append [] ys h k = k
All-append (x ∷ xs) ys h k = (h.0, All-append xs ys h.1 k)

pub demos-HasCommand :
    (pure_go : Bool) (found : List PodSpec)
    → All HasCommand found
    → All HasCommand (with_demos pure_go found)
unfolding with_demos build_kube_proxy_demo_specs build_tenant_demo_specs
demos-HasCommand true found n =
    All-append (found ++ []) build_tenant_demo_specs (All-append found [] n tt) (tt, (tt, tt))
demos-HasCommand false found n =
    All-append (found ++ build_kube_proxy_demo_specs) build_tenant_demo_specs
      (All-append found build_kube_proxy_demo_specs n (tt, (tt, (tt, tt)))) (tt, (tt, tt))

-- What is gathered are pods of the manifests.
gathered-HasCommand :
    (kernel : Kernel) (specs found : List PodSpec) (h : NodeHistory)
    → All HasCommand specs
    → (gathered kernel specs h).0 ≡ some found
    → All HasCommand found
gathered-HasCommand kernel specs found h n e =
    let each = run kernel (run_each (keep false specs)) h in
    let said : (if each.0 then some (keep true specs) else none) ≡ some found =
      sym (ap (λ r. r.0) (gather-run kernel specs [] h)) ∙ e in
    let same_pods : keep true specs ≡ found = ground (arith, said) in
    subst (All HasCommand) same_pods (keep-HasCommand true specs n)

-- A call of a pod leaves the mode.
pod_call_mode :
    (c : NodeCall) (r : Answer) (h : NodeHistory)
    → IsPodCall c
    → mode_of h ≡ mac_mode_permissive
    → mode_of ((c, r) ∷ h) ≡ mac_mode_permissive
pod_call_mode (sets_mode m) r h p e = absurd p
pod_call_mode _ r h p e = e

-- Before the first bridged pod.
gathered-Restored :
    (kernel : Kernel) (specs : List PodSpec) (h : NodeHistory)
    → All HasCommand specs
    → ((i : ℕ) → label_of h i ≡ 0)
    → mode_of h ≡ mac_mode_permissive
    → ((i : ℕ) → label_of (gathered kernel specs h).1 i ≡ 0)
      × (mode_of (gathered kernel specs h).1 ≡ mac_mode_permissive)
gathered-Restored kernel specs h n l m =
    let made = gather-IsPodProg specs [] n in
    (
      (λ i.
          Ensures-run (λ b f. label_of f i ≡ 0) kernel (gather specs []) h
            (Makes-Ensures IsPodCall (λ f. label_of f i ≡ 0) (pod_call_label i 0) (gather specs [])
              h made (l i))),
      Ensures-run (λ b f. mode_of f ≡ mac_mode_permissive) kernel (gather specs []) h
          (Makes-Ensures IsPodCall (λ f. mode_of f ≡ mac_mode_permissive) pod_call_mode
            (gather specs []) h made m),
    )

-- Where every manifest has a command, and from a start at which no address has a tenant and the kernel is permissive,
-- the node agent leaves no address with a tenant and the kernel permissive, whatever it runs, whichever calls fail and
-- however the calls of its pods interleave, on a kernel that takes labels away and goes back to the permissive mode.
pub RunsAgent-Restored :
    (kernel : Kernel) (restores : Restores kernel) (pure_go : Bool) (specs : List PodSpec)
    (h g : NodeHistory)
    → All HasCommand specs
    → ((i : ℕ) → label_of h i ≡ 0)
    → mode_of h ≡ mac_mode_permissive
    → RunsAgent kernel pure_go h specs g
    → ((i : ℕ) → label_of g i ≡ 0) × (mode_of g ≡ mac_mode_permissive)
RunsAgent-Restored kernel restores pure_go [] h g n l m no_manifests = (l, m)
RunsAgent-Restored kernel restores pure_go (s ∷ ss) h g n l m (pod_panics _ _ e) =
    gathered-Restored kernel (s ∷ ss) h n l m
RunsAgent-Restored kernel restores pure_go (s ∷ ss) h g n l m (all_pods_run _ _ found _ e runs) =
    let before = gathered-Restored kernel (s ∷ ss) h n l m in
    RunsBridged-Restored kernel restores _ (gathered kernel (s ∷ ss) h).1 g
      (demos-HasCommand pure_go found (gathered-HasCommand kernel (s ∷ ss) found h n e)) before.0
      before.1 runs
