-- ===== src/Node/Bridged.antt =====
-- The pods on bridges: runBridgedPods, runBridgedPod and hostSetupVethOnBridge of
-- cmd/asterkube-init/node.go, addServiceDNAT of service_linux.go and addMasqUplink of masq_linux.go.
pub mod PodCalls
pub mod Isolation
pub mod Environment
pub mod Addressed
use asterkube.Prelude.{
  ℕ, zero, ◌≡◌, ◌+◌, ◌*◌, ◌%◌, Bool, true, false, not, List, [], ◌∷◌, ◌++◌, Option, none, some,
  String, if◌then◌else◌, length,
}
use asterkube.Prelude.Int.{ℤ, pos, pattern64, add64}
use asterkube.Prelude.Text.{str_eq, codes}
use asterkube.Prelude.Decimal.{print_int}
use asterkube.Prelude.Prog.{Prog, ret, ask, bind, ◌>>=◌, ◌>>◌, run, Interleaves}
use asterkube.Inet.{parse_ip4, pack_ip4}
use asterkube.Node.{
  panics, panic_count, PodSpec, PodNetwork, NodeCall, opens_netlink, closes_netlink, creates_bridge,
  finds_link, adds_addr, marks_uplink, programs_dnat, creates_port, Answer, refused, exists, done,
  number, NodeProg, NodeHistory, Kernel, is_refused, env_entry, host_name,
}
use asterkube.Node.Start.{
  PodStart, gave_up, panicked, running, start_pod_container, signal_veth_created,
}
use asterkube.Node.Tenants.{apply_tenant_labels, cleanup_tenant_labels}
use asterkube.Node.Wait.{wait_pod}

-- What stands for no network: the pods of a bridge have one.
abbrev no_network : PodNetwork
no_network = record {
  pod_ip = "";
  host_ip = "";
  prefix = pos 0;
  bridge = "";
  gateway_ip = "";
  peer_ip = "";
  service_vip = "";
  service_port = pos 0;
  backend_port = pos 0;
  service_role = "";
  cross_ping_ip = "";
  uplink = false;
  masq_role = "";
  masq_target = "";
  tenant_probe_ip = "";
}

-- `spec.Network` of a pod that bridged has found to have one; Go would stop at a nil one.
abbrev pub network_of : PodSpec → PodNetwork
network_of spec = elim spec.network [ none ↦ no_network | some n ↦ n ]

-- The indices of the bridges by name.
abbrev pub Bridges : Type 0
Bridges = List (String × ℕ)

abbrev pub bridge_index : String → Bridges → Option ℕ
bridge_index name [] = none
bridge_index name ((n, idx) ∷ bs) = if str_eq n name then some idx else bridge_index name bs

-- From the address on: a bridge without one is not used, and one that is no uplink still is.
unfoldable pub address_bridge : PodNetwork → ℕ → Bridges → NodeProg Bridges
address_bridge n idx bridges = ask (adds_addr idx n.gateway_ip n.prefix) >>= λ r.
    if is_refused r
    then ret bridges
    else if n.uplink
    then ask (marks_uplink idx) >> ret ((n.bridge, idx) ∷ bridges)
    else ret ((n.bridge, idx) ∷ bridges)

abbrev pub found_bridge : PodNetwork → Bridges → Answer → NodeProg Bridges
found_bridge n bridges (number idx) = address_bridge n idx bridges
found_bridge n bridges _ = ret bridges

unfoldable pub create_one : PodNetwork → Bridges → NodeProg Bridges
create_one n bridges = ask (creates_bridge n.bridge) >>= λ r.
    if is_refused r
    then ret bridges
    else ask (finds_link n.bridge) >>= λ q. found_bridge n bridges q

unfoldable pub create_bridges : List PodSpec → Bridges → NodeProg Bridges
create_bridges [] bridges = ret bridges
create_bridges (spec ∷ specs) bridges =
    let n = network_of spec in
    elim (bridge_index n.bridge bridges) [
      | some idx ↦ create_bridges specs bridges
      | none ↦ create_one n bridges >>= λ more. create_bridges specs more
    ]

-- uint32(vport)<<16 | uint32(bport) & 0xffff
abbrev pub packed_ports : ℤ → ℤ → ℕ
packed_ports vport bport = pattern64 vport % 65536 * 65536 + pattern64 bport % 65536

-- A text that is no address is reported and programs nothing.
unfoldable pub add_service_dnat : String → ℤ → String → ℤ → ℕ → NodeProg (Unit {0})
add_service_dnat vip vport backend bport proto = elim (parse_ip4 vip) [
  | none ↦ ret tt
  | some v ↦ elim (parse_ip4 backend) [
    | none ↦ ret tt
    | some b ↦
        ask (programs_dnat (pack_ip4 v) (pack_ip4 b) (packed_ports vport bport) proto) >> ret tt
  ]
]

abbrev pub service_vip_addr : String
service_vip_addr = "10.96.0.10"

abbrev pub service_vport : ℤ
service_vport = pos 80

-- The rules of the first backend: two of UDP and one of TCP.
unfoldable pub program_dnat : List PodSpec → NodeProg (Unit {0})
program_dnat [] = ret tt
program_dnat (spec ∷ specs) =
    let n = network_of spec in
    let rest = program_dnat specs in
    let rule = add_service_dnat service_vip_addr service_vport n.pod_ip in
    if not (str_eq n.service_role "backend") then rest else do
      _ ← rule n.backend_port 17
      _ ← rule (add64 n.backend_port (pos 2)) 17
      rule (add64 n.backend_port (pos 1)) 6

abbrev pub when_set : String → List String → List String
when_set value entries = if str_eq value "" then [] else entries

-- The port of a spec is taken where it is not 0.
abbrev pub vport_of : ℤ → ℤ
vport_of (pos zero) = service_vport
vport_of p = p

abbrev pub vip_of : PodNetwork → String
vip_of n = if str_eq n.service_vip "" then service_vip_addr else n.service_vip

abbrev pub service_entries : PodNetwork → List String
service_entries n = when_set n.service_role (
    env_entry "ASTERKUBE_SVC_ROLE" n.service_role
    ∷ env_entry "ASTERKUBE_SVC_VIP" (vip_of n)
    ∷ env_entry "ASTERKUBE_SVC_VPORT" (print_int (vport_of n.service_port))
    ∷ env_entry "ASTERKUBE_SVC_BACKEND_PORT" (print_int n.backend_port)
    ∷ [])

abbrev pub masq_entries : PodNetwork → List String
masq_entries n = when_set n.masq_role (
    env_entry "ASTERKUBE_MASQ_ROLE" n.masq_role
    ∷ env_entry "ASTERKUBE_MASQ_UPLINK_GW" n.gateway_ip
    ∷ env_entry "ASTERKUBE_MASQ_TARGET" n.masq_target
    ∷ [])

-- The addresses and roles that the container of a bridged pod is told: its gateway is on the bridge.
unfoldable pub bridged_env : PodNetwork → List String
bridged_env n =
    (env_entry "ASTERKUBE_POD_IP" n.pod_ip
      ∷ env_entry "ASTERKUBE_HOST_IP" n.gateway_ip
      ∷ env_entry "ASTERKUBE_VETH_PREFIX" (print_int n.prefix)
      ∷ [])
    ++ when_set n.peer_ip (env_entry "ASTERKUBE_PEER_IP" n.peer_ip ∷ [])
    ++ when_set n.tenant_probe_ip (env_entry "ASTERKUBE_TENANT_PROBE_IP" n.tenant_probe_ip ∷ [])
    ++ when_set n.cross_ping_ip (env_entry "ASTERKUBE_CROSS_PING" n.cross_ping_ip ∷ [])
    ++ masq_entries n
    ++ service_entries n

unfoldable pub host_setup_veth_on_bridge : PodSpec → ℕ → ℕ → NodeProg (Unit {0})
host_setup_veth_on_bridge spec pid idx = ask opens_netlink >>= λ r.
    if is_refused r
    then ret tt
    else ask (creates_port (host_name spec) pid idx) >> ask closes_netlink >> ret tt

-- The pod runs even where its link fails.
abbrev pub wired_pod : PodSpec → ℕ → PodStart → NodeProg (Unit {0})
wired_pod spec idx (running pid) = do
  _ ← host_setup_veth_on_bridge spec pid idx
  _ ← signal_veth_created spec
  wait_pod spec pid
wired_pod spec idx _ = ret tt

unfoldable pub run_bridged_pod : PodSpec → ℕ → NodeProg (Unit {0})
run_bridged_pod spec idx =
    start_pod_container spec (bridged_env (network_of spec)) >>= λ s. wired_pod spec idx s

-- The pods whose bridge is there, each with its index.
unfoldable pub on_bridges : Bridges → List PodSpec → List (PodSpec × ℕ)
on_bridges bridges [] = []
on_bridges bridges (spec ∷ specs) =
    let rest = on_bridges bridges specs in
    elim (bridge_index (network_of spec).bridge bridges) [
      | none ↦ rest
      | some idx ↦ (spec, idx) ∷ rest
    ]

abbrev pub pod_programs : List (PodSpec × ℕ) → List (NodeProg (Unit {0}))
pod_programs [] = []
pod_programs (p ∷ ps) = run_bridged_pod p.0 p.1 ∷ pod_programs ps

-- All that is done before the first pod is started.
unfoldable pub prepare_bridges : List PodSpec → NodeProg Bridges
prepare_bridges specs = do
  bridges ← create_bridges specs []
  _ ← program_dnat specs
  _ ← apply_tenant_labels specs
  ret bridges

abbrev pub opened : Kernel → NodeHistory → NodeHistory
opened kernel h = (opens_netlink, kernel h opens_netlink) ∷ h

abbrev pub prepared : Kernel → List PodSpec → NodeHistory → Bridges × NodeHistory
prepared kernel specs h = run kernel (prepare_bridges specs) (opened kernel h)

abbrev pub cleaned : Kernel → List PodSpec → NodeHistory → NodeHistory
cleaned kernel specs g =
    let after = (run kernel (cleanup_tenant_labels specs) g).1 in
    (closes_netlink, kernel after closes_netlink) ∷ after

abbrev pub all_pods : Kernel → List PodSpec → NodeHistory → List (NodeProg (Unit {0}))
all_pods kernel specs h = pod_programs (on_bridges (prepared kernel specs h).0 specs)

-- runBridgedPods from one history to another: nothing without netlink; else the pods run at the same
-- time, and when all have ended their labels go and the socket is closed. Where a pod panics, the process ends with all
-- the others that run in it, and nothing comes behind the panic.
pub data RunsBridged (kernel : Kernel) (specs : List PodSpec) (h : NodeHistory)
    : NodeHistory → Type 0 where
  no_netlink :
      is_refused (kernel h opens_netlink) ≡ true → RunsBridged kernel specs h (opened kernel h)
  together :
      is_refused (kernel h opens_netlink) ≡ false
      → (g : NodeHistory)
      → Interleaves kernel (all_pods kernel specs h) (prepared kernel specs h).1 g
      → panic_count g ≡ panic_count (prepared kernel specs h).1
      → RunsBridged kernel specs h (cleaned kernel specs g)
  dies :
      is_refused (kernel h opens_netlink) ≡ false
      → (later before : NodeHistory) (r : Answer)
      → Interleaves kernel
          (all_pods kernel specs h)
          (prepared kernel specs h).1
          (later ++ (panics, r) ∷ before)
      → panic_count before ≡ panic_count (prepared kernel specs h).1
      → RunsBridged kernel specs h ((panics, r) ∷ before)
