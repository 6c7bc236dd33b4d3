-- ===== src/Node/Bridged/PodCalls.antt =====
-- The calls that a pod with a command makes: none of the tenants' labels, and no panic.
use asterkube.Prelude.{ℕ, List, [], ◌∷◌, ◌++◌, Option, none, some, String, if_both, Option-both}
use asterkube.Prelude.Decimal.{is_positive}
use asterkube.Prelude.Prog.{Makes, Makes-bind, ask, ◌>>◌}
use asterkube.Prelude.{All}
use asterkube.Node.{
  panics, PodSpec, PodNetwork, ready, created, End, reads, writes, NodeCall, labels_ip, sets_mode,
  removes, Answer, refused, exists, done, number, NodeProg, is_refused,
}
use asterkube.Node.Start.{
  PodStart, Failure, write_quota, write_limits, launch, launch_for, launch_with, launch_wired,
  start_pod_container, launched, cgroup_made, start_in_cgroup, sync_ends, release, give_up,
  close_all, cgroup_of, not_started, no_veth_pipe, signal_veth_created, gave_up, panicked, running,
}
use asterkube.Node.Wait.{wait_pod}
use asterkube.Node.Bridged.{
  host_setup_veth_on_bridge, run_bridged_pod, wired_pod, pod_programs, bridged_env, network_of,
}

abbrev pub IsNamed : List String → Type 0
IsNamed [] = ⊥
IsNamed (c ∷ cs) = Unit

-- A pod whose manifest has a command.
abbrev pub HasCommand : PodSpec → Type 0
HasCommand spec = IsNamed spec.command

abbrev pub IsPodCall : NodeCall → Type 0
IsPodCall (labels_ip ip t) = ⊥
IsPodCall (sets_mode m) = ⊥
IsPodCall panics = ⊥
IsPodCall _ = Unit

abbrev IsPodProg : {A : Type 0} → NodeProg A → Type 0
IsPodProg p = Makes IsPodCall p

write_quota-IsPodProg : (spec : PodSpec) → IsPodProg (write_quota spec)
unfolding write_quota
write_quota-IsPodProg spec =
    if_both IsPodProg (is_positive spec.resources.cpu_max_percent) (tt, λ r. tt) tt

write_limits-IsPodProg : (spec : PodSpec) → IsPodProg (write_limits spec)
unfolding write_limits
write_limits-IsPodProg spec =
    if_both IsPodProg (is_positive spec.resources.memory_max_mib)
      (tt, λ r. write_quota-IsPodProg spec) (write_quota-IsPodProg spec)

close_all-IsPodProg : (ends : List End) → IsPodProg (close_all ends)
close_all-IsPodProg [] = tt
close_all-IsPodProg (e ∷ ends) = (tt, λ r. close_all-IsPodProg ends)

give_up-IsPodProg :
    (spec : PodSpec) (failure : Failure) (ends : List End) → IsPodProg (give_up spec failure ends)
give_up-IsPodProg spec failure ends =
    Makes-bind IsPodCall (close_all ends >> ask (removes (cgroup_of spec))) _
      (Makes-bind IsPodCall (close_all ends) _ (close_all-IsPodProg ends) (λ u. (tt, λ r. tt)))
      (λ r. tt)

release-IsPodProg :
    (spec : PodSpec) (passed : List End) (pid : ℕ) → IsPodProg (release spec passed pid)
release-IsPodProg spec passed pid = (
  tt,
  λ r.
      Makes-bind IsPodCall (close_all passed) _ (close_all-IsPodProg passed)
        (λ u. (tt, λ r. (tt, λ r. (tt, λ r. tt)))),
)

module _ (spec : PodSpec) (net_env : List String) where
  launched-IsPodProg : (passed : List End) (r : Answer) → IsPodProg (launched spec passed r)
  launched-IsPodProg passed (number pid) = release-IsPodProg spec passed pid
  launched-IsPodProg passed refused = give_up-IsPodProg spec not_started sync_ends
  launched-IsPodProg passed exists = give_up-IsPodProg spec not_started sync_ends
  launched-IsPodProg passed done = give_up-IsPodProg spec not_started sync_ends

  launch-IsPodProg : (passed : List End) → IsPodProg (launch spec net_env passed)
  unfolding launch
  launch-IsPodProg passed = (tt, λ r. launched-IsPodProg passed r)

  launch_wired-IsPodProg : IsPodProg (launch_wired spec net_env)
  unfolding launch_wired
  launch_wired-IsPodProg = (
    tt,
    λ r. if_both IsPodProg (is_refused r) (give_up-IsPodProg spec no_veth_pipe sync_ends) (
      tt,
      λ q.
          if_both IsPodProg (is_refused q)
            (give_up-IsPodProg spec no_veth_pipe (sync_ends ++ (reads ready ∷ writes ready ∷ [])))
            (launch-IsPodProg (writes ready ∷ reads created ∷ [])),
    ),
  )

  launch_for-IsPodProg : (o : Option PodNetwork) → IsPodProg (launch_for spec net_env o)
  launch_for-IsPodProg none = launch-IsPodProg []
  launch_for-IsPodProg (some n) = launch_wired-IsPodProg

  launch_with-IsPodProg :
      (command : List String) → IsNamed command → IsPodProg (launch_with spec net_env command)
  launch_with-IsPodProg [] n = absurd n
  launch_with-IsPodProg (c ∷ cs) n = launch_for-IsPodProg spec.network

  start_in_cgroup-IsPodProg : HasCommand spec → IsPodProg (start_in_cgroup spec net_env)
  unfolding start_in_cgroup
  start_in_cgroup-IsPodProg n =
      Makes-bind IsPodCall (write_limits spec) _ (write_limits-IsPodProg spec) (λ u. (
        tt,
        λ q. if_both IsPodProg (is_refused q) (tt, λ r. tt) (launch_with-IsPodProg spec.command n),
      ))

  cgroup_made-IsPodProg : HasCommand spec → (r : Answer) → IsPodProg (cgroup_made spec net_env r)
  cgroup_made-IsPodProg n refused = tt
  cgroup_made-IsPodProg n _ = start_in_cgroup-IsPodProg n

  pub start_pod_container-IsPodProg : HasCommand spec → IsPodProg (start_pod_container spec net_env)
  unfolding start_pod_container
  start_pod_container-IsPodProg n = (tt, λ r. cgroup_made-IsPodProg n r)

pub signal_veth_created-IsPodProg : (spec : PodSpec) → IsPodProg (signal_veth_created spec)
unfolding signal_veth_created
signal_veth_created-IsPodProg spec =
    Option-both IsPodProg spec.network (λ n. tt) (λ o n. (tt, λ r. (tt, λ r. tt)))

host_setup_veth_on_bridge-IsPodProg :
    (spec : PodSpec) (pid idx : ℕ) → IsPodProg (host_setup_veth_on_bridge spec pid idx)
unfolding host_setup_veth_on_bridge
host_setup_veth_on_bridge-IsPodProg spec pid idx =
    (tt, λ r. if_both IsPodProg (is_refused r) tt (tt, λ r. (tt, λ r. tt)))

pub wait_pod-IsPodProg : (spec : PodSpec) (pid : ℕ) → IsPodProg (wait_pod spec pid)
unfolding wait_pod
wait_pod-IsPodProg spec pid =
    (tt, λ r. if_both IsPodProg (is_refused r) (tt, λ r. (tt, λ r. (tt, λ r. tt))) (tt, λ r. tt))

wired_pod-IsPodProg : (spec : PodSpec) (idx : ℕ) (s : PodStart) → IsPodProg (wired_pod spec idx s)
wired_pod-IsPodProg spec idx (running pid) =
    Makes-bind IsPodCall (host_setup_veth_on_bridge spec pid idx) _
      (host_setup_veth_on_bridge-IsPodProg spec pid idx)
      (λ u.
        Makes-bind IsPodCall (signal_veth_created spec) _ (signal_veth_created-IsPodProg spec)
          (λ v. wait_pod-IsPodProg spec pid))
wired_pod-IsPodProg spec idx (gave_up f) = tt
wired_pod-IsPodProg spec idx panicked = tt

-- A pod does not touch the tenants' labels.
pub run_bridged_pod-IsPodProg :
    (spec : PodSpec) (idx : ℕ) → HasCommand spec → IsPodProg (run_bridged_pod spec idx)
unfolding run_bridged_pod
run_bridged_pod-IsPodProg spec idx n =
    Makes-bind IsPodCall (start_pod_container spec (bridged_env (network_of spec))) _
      (start_pod_container-IsPodProg spec (bridged_env (network_of spec)) n)
      (λ s. wired_pod-IsPodProg spec idx s)

pub pod_programs-IsPodProg :
    (pods : List (PodSpec × ℕ))
    → All (λ (p : PodSpec × ℕ). HasCommand p.0) pods
    → All (Makes IsPodCall) (pod_programs pods)
pod_programs-IsPodProg [] n = tt
pod_programs-IsPodProg (p ∷ pods) n =
    (run_bridged_pod-IsPodProg p.0 p.1 n.0, pod_programs-IsPodProg pods n.1)
