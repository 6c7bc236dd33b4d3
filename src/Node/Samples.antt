-- ===== src/Node/Samples.antt =====
-- The node agent on small inputs, and its theorems there.
use asterkube.Prelude.{
  ◌⊎◌, ℕ, true, List, [], ◌∷◌, Option, none, some, All, ◌≡◌, refl, ◌≤◌, ◌+◌, arith,
}
use asterkube.Prelude.Int.{pos}
use asterkube.Prelude.Prog.{run, run_in_order, Interleaves, run_in_order-Interleaves}
use asterkube.Node.{
  panic_count, bridged, PodSpec, PodNetwork, starts, finds_link, waits, writes, ready, refused,
  done, number, NodeHistory, Kernel,
}
use asterkube.Node.Start.{
  start_pod_container, container_env, start_in_cgroup, write_limits, write_quota,
}
use asterkube.Node.Start.Ends.{is_open, left_open, start_pod_container-ends}
use asterkube.Node.Wait.{
  wait_pod, watchdog, kill_wait, spent, EndsInTime, EndsKilled, wait_pod-Bounded,
}
use asterkube.Node.Tenants.{mac_mode_permissive, container_set_tenant, tenant_variable}
use asterkube.Node.Tenants.Labels.{label_of, mode_of}
use asterkube.Node.Bridged.{together, bridged_env, on_bridges, prepared, all_pods, cleaned}
use asterkube.Node.Bridged.PodCalls.{HasCommand}
use asterkube.Node.Bridged.Isolation.{pods-panic_count}
use asterkube.Node.Bridged.Environment.{bridged_env-container_set_tenant}
use asterkube.Node.Bridged.Addressed.{AllOnBridges, prepared-AllOnBridges}
use asterkube.Node.Agent.{RunsAgent, all_pods_run, gather, gathered, with_demos, run_pod}
use asterkube.Node.Agent.Gathering.{demos-HasCommand, RunsAgent-Restored}

-- A kernel that does what it is asked.
abbrev willing : Kernel
willing h (starts command env ends) = number 77
willing h (finds_link name) = number 5
willing h (waits ms) = number 10
willing h _ = done

-- A kernel that starts no process, and one whose processes do not end.
abbrev starts_none : Kernel
starts_none h (starts command env ends) = refused
starts_none h _ = done

abbrev never_ends : Kernel
never_ends h (waits ms) = refused
never_ends h _ = done

abbrev network : PodNetwork
network = record {
  pod_ip = "10.0.5.2";
  host_ip = "10.0.5.1";
  prefix = pos 24;
  bridge = "";
  gateway_ip = "10.0.5.1";
  peer_ip = "10.0.5.3";
  service_vip = "";
  service_port = pos 0;
  backend_port = pos 8080;
  service_role = "backend";
  cross_ping_ip = "";
  uplink = true;
  masq_role = "client";
  masq_target = "10.0.6.1";
  tenant_probe_ip = "";
}

abbrev plain_pod : PodSpec
plain_pod = record {
  name = "web";
  hostname = "web";
  command = "/bin/web" ∷ "-v" ∷ [];
  env = "ASTERKUBE_POD_TENANT=9" ∷ [];
  resources = record { memory_max_mib = pos 64; cpu_max_percent = pos 50 };
  network = some network;
  tenant = 3;
}

abbrev bridged_pod : PodSpec
bridged_pod = record plain_pod { network = some (record network { bridge = "br0" }) }

abbrev two_pods : List PodSpec
two_pods = bridged_pod ∷ plain_pod ∷ []

start_pod_container-ends_example :
    let after = run starts_none (start_pod_container plain_pod []) [] in
    is_open (writes ready) after.1 ≡ left_open plain_pod after.0 (writes ready)
start_pod_container-ends_example =
    start_pod_container-ends starts_none plain_pod [] [] (writes ready) refl

wait_pod-Bounded_example :
    let after = (run never_ends (wait_pod bridged_pod 77) []).1 in
    (spent after ≤ 0 + watchdog bridged_pod + kill_wait)
    × (EndsInTime bridged_pod [] after ⊎ EndsKilled bridged_pod 77 [] after)
wait_pod-Bounded_example = wait_pod-Bounded never_ends bridged_pod 77 []

bridged_env-container_set_tenant_example :
    container_set_tenant (tenant_variable (container_env plain_pod (bridged_env network))) ≡ some 3
bridged_env-container_set_tenant_example =
    bridged_env-container_set_tenant plain_pod network (omega arith)

prepared-AllOnBridges_example :
    let before = prepared willing two_pods [] in
    AllOnBridges (on_bridges before.0 two_pods) before.1
prepared-AllOnBridges_example = prepared-AllOnBridges willing two_pods []

-- A manifest without a command ends the agent: the pod behind it does not run.
abbrev no_command : PodSpec
no_command = record plain_pod { command = [] }

panics_early : (gathered willing (no_command ∷ plain_pod ∷ []) []).0 ≡ none
unfolding gather bridged run_pod start_pod_container start_in_cgroup write_limits write_quota
panics_early = refl

-- All pods of a boot with two manifests, the bridged ones one after the other.
abbrev ran : Option (List PodSpec) × NodeHistory
ran = gathered willing two_pods []

abbrev on_the_bridges : List PodSpec
on_the_bridges = with_demos true (bridged_pod ∷ [])

abbrev pods_history : NodeHistory
pods_history =
    run_in_order willing (all_pods willing on_the_bridges ran.1)
      (prepared willing on_the_bridges ran.1).1

abbrev boot_history : NodeHistory
boot_history = cleaned willing on_the_bridges pods_history

gathers_one : ran.0 ≡ some (bridged_pod ∷ [])
unfolding gather bridged run_pod start_pod_container start_in_cgroup write_limits write_quota
    asterkube.Node.Start.launch_wired asterkube.Node.Start.launch
    asterkube.Node.Agent.host_setup_veth asterkube.Node.Start.signal_veth_created wait_pod
gathers_one = refl

two_named : All HasCommand two_pods
two_named = (tt, (tt, tt))

pods_runs :
    Interleaves willing
      (all_pods willing on_the_bridges ran.1)
      (prepared willing on_the_bridges ran.1).1
      pods_history
pods_runs =
    run_in_order-Interleaves willing (all_pods willing on_the_bridges ran.1)
      (prepared willing on_the_bridges ran.1).1

none_panics : panic_count pods_history ≡ panic_count (prepared willing on_the_bridges ran.1).1
none_panics =
    pods-panic_count willing on_the_bridges ran.1 pods_history
      (demos-HasCommand true (bridged_pod ∷ []) (tt, tt)) pods_runs

boot_runs : RunsAgent willing true [] two_pods boot_history
boot_runs =
    all_pods_run bridged_pod (plain_pod ∷ []) (bridged_pod ∷ []) boot_history gathers_one
      (together refl pods_history pods_runs none_panics)

RunsAgent-Restored_example :
    ((i : ℕ) → label_of boot_history i ≡ 0) × (mode_of boot_history ≡ mac_mode_permissive)
RunsAgent-Restored_example =
    RunsAgent-Restored willing ((λ h ip. refl), (λ h. refl)) true two_pods [] boot_history two_named
      (λ i. refl) refl boot_runs
