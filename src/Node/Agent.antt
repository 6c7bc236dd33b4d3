-- ===== src/Node/Agent.antt =====
-- The node loop: runNodeAgent, loadPodManifests, runPod, hostSetupVeth, buildKubeProxyDemoSpecs of
-- cmd/asterkube-init/node.go and buildTenantDemoSpecs of tenant_adapter_linux.go.
pub mod Gathering
use asterkube.Prelude.{
  ℕ, Bool, true, false, not, ◌&&◌, List, [], ◌∷◌, ◌++◌, Option, none, some, String, ◌≡◌, ◌≢◌,
  if◌then◌else◌,
}
use asterkube.Prelude.Int.{ℤ, pos}
use asterkube.Prelude.Text.{str_append, has_suffix, str_leb}
use asterkube.Prelude.Decimal.{print_int}
use asterkube.Prelude.Prog.{Prog, ret, ask, bind, ◌>>=◌, ◌>>◌, run}
use asterkube.Node.{
  PodSpec, PodNetwork, bridged, opens_netlink, closes_netlink, creates_veth, finds_link, adds_addr,
  Answer, refused, exists, done, number, NodeProg, NodeHistory, Kernel, is_refused, env_entry,
  host_name,
}
use asterkube.Node.Start.{
  PodStart, gave_up, panicked, running, start_pod_container, signal_veth_created,
}
use asterkube.Node.Wait.{wait_pod}
use asterkube.Node.Bridged.{network_of, RunsBridged}

abbrev netlink_closed : NodeProg (Unit {0})
netlink_closed = ask closes_netlink >> ret tt

abbrev pub host_link : PodSpec → Answer → NodeProg (Unit {0})
host_link spec (number idx) =
    ask (adds_addr idx (network_of spec).host_ip (network_of spec).prefix) >> netlink_closed
host_link spec _ = netlink_closed

unfoldable pub host_setup_veth : PodSpec → ℕ → NodeProg (Unit {0})
host_setup_veth spec pid = ask opens_netlink >>= λ r.
    if is_refused r
    then ret tt
    else ask (creates_veth (host_name spec) pid) >>= λ q.
        if is_refused q
        then netlink_closed
        else ask (finds_link (host_name spec)) >>= λ a. host_link spec a

abbrev pub host_env : Option PodNetwork → List String
host_env none = []
host_env (some n) =
    env_entry "ASTERKUBE_POD_IP" n.pod_ip
    ∷ env_entry "ASTERKUBE_HOST_IP" n.host_ip
    ∷ env_entry "ASTERKUBE_VETH_PREFIX" (print_int n.prefix)
    ∷ []

abbrev pub host_wired : PodSpec → ℕ → Option PodNetwork → NodeProg (Unit {0})
host_wired spec pid none = ret tt
host_wired spec pid (some n) = host_setup_veth spec pid >> signal_veth_created spec

-- Whether the process of the agent goes on: not behind a panic.
abbrev pub started_pod : PodSpec → PodStart → NodeProg Bool
started_pod spec (running pid) = host_wired spec pid spec.network >> wait_pod spec pid >> ret true
started_pod spec (gave_up f) = ret true
started_pod spec panicked = ret false

unfoldable pub run_pod : PodSpec → NodeProg Bool
run_pod spec = start_pod_container spec (host_env spec.network) >>= λ s. started_pod spec s

-- The loop of runNodeAgent: ordinary pods run at once, the others are gathered; nothing where one panics.
unfoldable pub gather : List PodSpec → List PodSpec → NodeProg (Option (List PodSpec))
gather [] found = ret (some found)
gather (spec ∷ specs) found =
    let later = gather specs (found ++ (spec ∷ [])) in
    let rest = gather specs found in
    if bridged spec then later else run_pod spec >>= λ alive. if alive then rest else ret none

-- A pod of the demonstrations.
abbrev demo_pod : String → ℕ → PodNetwork → PodSpec
demo_pod name tenant n = record {
  name = name;
  hostname = name;
  command = "/usr/bin/kubelet" ∷ [];
  env = "ASTERKUBE_CONTAINER=1" ∷ [];
  resources = record { memory_max_mib = pos 128; cpu_max_percent = pos 50 };
  network = some n;
  tenant = tenant;
}

abbrev demo_network : String → String → String → PodNetwork
demo_network bridge gateway ip = record {
  pod_ip = ip;
  host_ip = "";
  prefix = pos 24;
  bridge = bridge;
  gateway_ip = gateway;
  peer_ip = "";
  service_vip = "";
  service_port = pos 0;
  backend_port = pos 0;
  service_role = "";
  cross_ping_ip = "";
  uplink = false;
  masq_role = "";
  masq_target = "";
  tenant_probe_ip = "";
}

abbrev kube_proxy_pod : String → String → String → String → PodSpec
kube_proxy_pod name ip role peer = demo_pod name 0 (record (demo_network "kpbr" "10.244.0.1" ip) {
  peer_ip = peer;
  service_role = role;
  service_vip = "10.96.0.10";
  service_port = pos 53;
  backend_port = pos 53;
})

abbrev tenant_pod : String → ℕ → String → String → PodSpec
tenant_pod name tenant ip probe =
    demo_pod name tenant (record (demo_network "tnbr" "10.244.7.1" ip) { tenant_probe_ip = probe })

unfoldable pub build_kube_proxy_demo_specs : List PodSpec
build_kube_proxy_demo_specs =
    kube_proxy_pod "kpb1" "10.244.0.2" "kpbackend" "10.244.0.4"
    ∷ kube_proxy_pod "kpb2" "10.244.0.3" "kpbackend" "10.244.0.4"
    ∷ kube_proxy_pod "kpc" "10.244.0.4" "kpclient" "10.244.0.2"
    ∷ []

unfoldable pub build_tenant_demo_specs : List PodSpec
build_tenant_demo_specs =
    tenant_pod "tn1" 1 "10.244.7.2" "10.244.7.3" ∷ tenant_pod "tn2" 2 "10.244.7.3" "" ∷ []

-- All pods that run on bridges.
unfoldable pub with_demos : Bool → List PodSpec → List PodSpec
with_demos pure_go found =
    found ++ (if pure_go then [] else build_kube_proxy_demo_specs) ++ build_tenant_demo_specs

abbrev pub gathered : Kernel → List PodSpec → NodeHistory → Option (List PodSpec) × NodeHistory
gathered kernel specs h = run kernel (gather specs []) h

-- runNodeAgent from one history to another, with the pods of the manifests. There is always a pod of the
-- demonstrations to run on a bridge. Where an ordinary pod panics, nothing comes behind it.
pub data RunsAgent (kernel : Kernel) (pure_go : Bool) (h : NodeHistory)
    : List PodSpec → NodeHistory → Type 0 where
  no_manifests : RunsAgent kernel pure_go h [] h
  pod_panics :
      (spec : PodSpec) (specs : List PodSpec)
      → (gathered kernel (spec ∷ specs) h).0 ≡ none
      → RunsAgent kernel pure_go h (spec ∷ specs) (gathered kernel (spec ∷ specs) h).1
  all_pods_run :
      (spec : PodSpec) (specs found : List PodSpec) (g : NodeHistory)
      → (gathered kernel (spec ∷ specs) h).0 ≡ some found
      → RunsBridged kernel (with_demos pure_go found) (gathered kernel (spec ∷ specs) h).1 g
      → RunsAgent kernel pure_go h (spec ∷ specs) g

pub record DirEntry : Type 0 where
  pub name : String
  pub is_dir : Bool

-- `sort.Strings`
unfoldable pub insert_name : String → List String → List String
insert_name x [] = x ∷ []
insert_name x (y ∷ ys) =
    let later = insert_name x ys in if str_leb x y then x ∷ y ∷ ys else y ∷ later

unfoldable pub manifest_names : List DirEntry → List String
manifest_names [] = []
manifest_names (e ∷ es) =
    let rest = manifest_names es in
    if not e.is_dir && has_suffix e.name ".json" then insert_name e.name rest else rest

-- What the files say: `none` for one that cannot be read or parsed.
unfoldable pub read_manifests : (String → Option PodSpec) → List String → List PodSpec
read_manifests file [] = []
read_manifests file (name ∷ names) =
    let rest = read_manifests file names in elim (file name) [ none ↦ rest | some s ↦ s ∷ rest ]

unfoldable pub load_pod_manifests :
    (String → Option PodSpec) → Option (List DirEntry) → List PodSpec
load_pod_manifests file none = []
load_pod_manifests file (some entries) = read_manifests file (manifest_names entries)
