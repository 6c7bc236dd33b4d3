-- ===== src/Join/Paths.antt =====
-- The two ways to join: joinFromBundle of cmd/asterkube-init/join_bundle_linux.go and bootArgsJoin of
-- boot_args_join_linux.go.
pub mod Living
use asterkube.Prelude.{
  ℕ, Bool, true, false, not, List, [], ◌∷◌, ◌++◌, Option, none, some, String, if◌then◌else◌, ◌≡◌,
  refl,
}
use asterkube.Prelude.Text.{str_eq, str_append}
use asterkube.Prelude.Prog.{Prog, ret, ask, bind, run, ◌>>=◌, ◌>>◌}
use asterkube.Mount.Fstab.{trim_space}
use asterkube.Inet.{parse_ip4}
use asterkube.Join.{
  JoinCall, JoinAnswer, JoinProg, JoinHistory, JoinSystem, reads_file, writes_file, makes_dir,
  opens_netlink, closes_netlink, finds_link, adds_addr, is_failed, failed, fine, text, number,
  names, text_of, exists, Environ, env_or, Settings, setting, parse_env_file,
}
use asterkube.Join.Bundle.{kubeconfig_of}
use asterkube.Join.Trust.{Discovery, write_bootstrap_kubeconfig}
use asterkube.Join.Files.{
  prepare_kubelet_node_files, install_cluster_hosts, setup_cni, link_runc,
  configure_eth0_best_effort,
}
use asterkube.Join.Kubelet.{
  Cmd, Joined, no_containerd, no_log, no_kubelet, unregistered, registered, start_static_containerd,
  join_with,
}
use asterkube.Join.Persist.{Node, keep_alive}

-- What is fixed when the node boots: its environment, what the Go library finds out about a CA, the configuration of
-- the network plugins, the path of the program, and whether DHCP has brought the interface up.
pub record Boot : Type 0 where
  pub env : Environ
  pub discovery : Discovery
  pub conflist : String
  pub executable : Option String
  pub network_configured : Bool

-- How a join ends before containerd: for want of a token, or of a trusted kubeconfig.
pub data Outcome : Type 0 where
  no_token : Outcome
  no_trust : Outcome
  tried : Joined → Outcome

abbrev pub containerd_sock : String
containerd_sock = "/run/containerd/containerd.sock"

abbrev flag : String → String → String
flag name value = str_append name value

-- The arguments that both ways pass to the kubelet behind their own.
abbrev common_args : String → String → List String
common_args node node_ip =
    "--container-runtime-endpoint=unix:///run/containerd/containerd.sock"
    ∷ "--image-service-endpoint=unix:///run/containerd/containerd.sock"
    ∷ "--root-dir=/var/lib/kubelet"
    ∷ flag "--hostname-override=" node
    ∷ flag "--node-ip=" node_ip
    ∷ "--register-node=true"
    ∷ "--node-labels=kernel.asterinas.io/name=asterinas,kernel.asterinas.io/compat=linux"
    ∷ "--cgroup-driver=cgroupfs"
    ∷ "--cgroups-per-qos=false"
    ∷ "--enforce-node-allocatable="
    ∷ "--cgroup-root=/"
    ∷ "--runtime-cgroups=/"
    ∷ "--kubelet-cgroups=/"
    ∷ "--fail-swap-on=false"
    ∷ "--resolv-conf=/etc/resolv.conf"
    ∷ "--node-status-update-frequency=4s"
    ∷ "--v=2"
    ∷ []

abbrev optional : String → String → List String
optional name value = let v = trim_space value in if str_eq v "" then [] else flag name v ∷ []

abbrev cert_dir : String
cert_dir = "--cert-dir=/var/lib/kubelet/pki"

unfoldable pub bundle_args : String → String → String → Settings → List String
bundle_args kubeconfig node node_ip settings =
    (flag "--kubeconfig=" kubeconfig ∷ cert_dir ∷ common_args node node_ip)
    ++ optional "--register-with-taints=" (setting "TAINTS" settings)
    ++ optional "--cluster-dns=" (setting "CLUSTER_DNS" settings)

unfoldable pub boot_args : Environ → String → String → List String
boot_args env node node_ip =
    ("--bootstrap-kubeconfig=/run/bootstrap.kubeconfig"
      ∷ "--kubeconfig=/var/lib/kubelet/kubelet.conf"
      ∷ cert_dir
      ∷ common_args node node_ip)
    ++ optional "--register-with-taints=" (env "ASTERKUBE_TAINTS")
    ++ optional "--cluster-dns=" (env "ASTERKUBE_CLUSTER_DNS")

abbrev pub join_behind : List String → Option Cmd → JoinProg Joined
join_behind args none = ret no_containerd
join_behind args (some cd) = do
  _ ← ask (makes_dir "/var/lib/kubelet/pki")
  _ ← prepare_kubelet_node_files
  join_with args "/run/kubelet-join.log" cd

-- The network plugins are there before containerd starts.
unfoldable pub prepare_runtime : Boot → JoinProg (Unit {0})
prepare_runtime b = setup_cni b.conflist "/usr/share/asterkube/cni" >> link_runc b.executable

abbrev pub node_containerd : JoinProg (Option Cmd)
node_containerd =
    start_static_containerd "/run/containerd/root" "/run/containerd/state" containerd_sock
      "/run/containerd/containerd.log"

abbrev pub finish_join : List String → Option Cmd → JoinProg Outcome
finish_join args cd = join_behind args cd >>= λ j. ret (tried j)

abbrev pub join_runtime : List String → JoinProg Outcome
join_runtime args = node_containerd >>= λ cd. finish_join args cd

unfoldable pub join_cluster : Boot → List String → JoinProg Outcome
join_cluster b args = prepare_runtime b >> join_runtime args

abbrev alias_on : String → JoinAnswer → JoinProg (Unit {0})
alias_on ip (number idx) = ask (adds_addr idx ip 32) >> ask closes_netlink >> ret tt
alias_on ip _ = ask closes_netlink >> ret tt

-- An address of the node that is none of the interface's yet.
unfoldable pub add_node_ip : String → JoinProg (Unit {0})
add_node_ip ip = elim (parse_ip4 ip) [
  | none ↦ ret tt
  | some v4 ↦ ask opens_netlink >>= λ r.
      if is_failed r then ret tt else ask (finds_link "eth0") >>= λ q. alias_on ip q
]

abbrev copy_resolv : Option String → JoinProg (Unit {0})
copy_resolv none = ret tt
copy_resolv (some t) = ask (writes_file "/etc/resolv.conf" t) >> ret tt

unfoldable pub set_resolv_conf : String → JoinProg (Unit {0})
set_resolv_conf path = exists path >>= λ b.
    if not b then ret tt else ask (reads_file path) >>= λ r. copy_resolv (text_of r)

abbrev setting_or : String → String → String
setting_or value def = if str_eq value "" then def else value

-- The addresses and names of the cluster.
abbrev pub apply_bundle : Boot → String → String → JoinProg (Unit {0})
apply_bundle b dir node_ip =
    configure_eth0_best_effort b.network_configured
    >> add_node_ip node_ip
    >> install_cluster_hosts (str_append dir "/hosts")
    >> set_resolv_conf (str_append dir "/resolv.conf")

abbrev pub join_settings : Boot → String → Settings → JoinProg Outcome
join_settings b dir settings =
    let node = setting_or (setting "NODE_NAME" settings) "asterkube" in
    let node_ip = setting_or (setting "NODE_IP" settings) "10.0.2.15" in
    apply_bundle b dir node_ip >>= λ _.
    join_cluster b (bundle_args (kubeconfig_of dir) node node_ip settings)

unfoldable pub join_from_bundle : Boot → String → JoinProg Outcome
join_from_bundle b dir =
    parse_env_file (str_append dir "/node.env") >>= λ settings. join_settings b dir settings

abbrev pub join_trusted : Boot → List String → Bool → JoinProg Outcome
join_trusted b args true = join_cluster b args
join_trusted b args false = ret no_trust

abbrev pub boot_config : Boot → JoinProg Bool
boot_config b =
    write_bootstrap_kubeconfig b.env b.discovery "/run/bootstrap.kubeconfig"
      (trim_space (b.env "ASTERKUBE_APISERVER")) (trim_space (b.env "ASTERKUBE_TOKEN"))

abbrev pub node_args : Boot → List String
node_args b =
    boot_args b.env (env_or b.env "ASTERKUBE_NODE_NAME" "asterkube")
      (env_or b.env "ASTERKUBE_NODE_IP" "10.0.2.15")

abbrev pub join_by_token : Boot → JoinProg Outcome
join_by_token b = boot_config b >>= λ ok. join_trusted b (node_args b) ok

unfoldable pub boot_args_join : Boot → JoinProg Outcome
boot_args_join b =
    if str_eq (trim_space (b.env "ASTERKUBE_TOKEN")) ""
    then ret no_token
    else configure_eth0_best_effort b.network_configured >>= λ _. join_by_token b

-- The variables liveProcs and clusterJoined behind a join: a registered node keeps containerd and the kubelet.
unfoldable pub joined_state : Outcome → Node → Node
unfolding keep_alive
joined_state (tried (registered cd k)) n = record (keep_alive k (keep_alive cd n)) {
  cluster_joined = true;
}
joined_state _ n = n
