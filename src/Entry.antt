-- ===== src/Entry.antt =====
-- The entry of the program, cmd/asterkube-init/main.go: what a process of the one binary becomes, and the end of the
-- boot.
pub mod Roles
pub mod Booting
mod Samples
use asterkube.Prelude.{
  ℕ, Bool, true, false, not, ◌&&◌, ◌||◌, ◌==◌, leb, List, [], ◌∷◌, Option, none, some, String,
  if◌then◌else◌, length, get_or, drop,
}
use asterkube.Prelude.Text.{str_eq, split_on}
use asterkube.Prelude.Prog.{Prog, ret, ask, bind, run, ◌>>=◌, ◌>>◌}
use asterkube.Join.{JoinProg, Environ, boot_args_configured}
use asterkube.Join.Bundle.{find_join_bundle}
use asterkube.Join.Paths.{Boot, Outcome, join_from_bundle, boot_args_join, joined_state}
use asterkube.Join.Persist.{Node, node_is_live}

-- What a process is, by the function that main calls for it.
pub data Role : Type 0 where
  runc_child : String → String → String → Role
  oci_runtime : List String → Role
  mount_tool : List String → Role
  umount_tool : List String → Role
  shebang_probe : Role
  seccomp_probe_child : String → Role
  mac_probe_main mac_probe_peer : Role
  file_mac_probe_main file_mac_probe_peer : Role
  socket_mac_probe_main socket_mac_probe_peer : Role
  userns_probe_child : Role
  rootless_probe_unpriv rootless_probe_userns : Role
  usermap_probe_unpriv usermap_probe_child : Role
  suid_report : Role
  sandbox_probe_hold sandbox_probe_join : Role
  container : Role
  runc_payload : Role
  binds_port : String → Role
  hogs_memory : String → String → Role
  burns_cpu : String → String → Role
  reports_pid : Role
  kubelet : Role
  init : Role

pub record Process : Type 0 where
  pub args : List String
  pub env : Environ
  pub pid : ℕ

-- The last field of a path that is not empty.
abbrev last_field : List String → String → String
last_field [] found = found
last_field (w ∷ ws) found = if str_eq w "" then last_field ws found else last_field ws w

-- `filepath.Base` of a path that names something.
unfoldable pub path_base : String → String
unfolding split_on
path_base s = last_field (split_on 47 s) ""

abbrev pub arg : Process → ℕ → String
arg p n = get_or p.args n ""

abbrev pub is_set : Process → String → Bool
is_set p name = not (str_eq (p.env name) "")

abbrev pub is_value : Process → String → String → Bool
is_value p name value = str_eq (p.env name) value

-- The tests of main in order, each with what the process becomes.
unfoldable pub guards : Process → List (Bool × Role)
unfolding path_base
guards p =
    let name = path_base (arg p 0) in
    let rest = drop 1 p.args in
    let child = is_set p "ASTERKUBE_PROBE_CHILD" in
    (
      leb 5 (length p.args) && str_eq (arg p 1) "__runc_init",
      runc_child (arg p 2) (arg p 3) (arg p 4),
    )
    ∷ (str_eq name "runc" || str_eq name "asterkube-runc", oci_runtime rest)
    ∷ (str_eq name "mount", mount_tool rest)
    ∷ (str_eq name "umount", umount_tool rest)
    ∷ (str_eq name "shebang-probe", shebang_probe)
    ∷ (is_set p "ASTERKUBE_SECCOMP_PROBE", seccomp_probe_child (p.env "ASTERKUBE_SECCOMP_PROBE"))
    ∷ (is_value p "ASTERKUBE_MAC_PROBE" "main", mac_probe_main)
    ∷ (is_value p "ASTERKUBE_MAC_PROBE" "peer", mac_probe_peer)
    ∷ (is_value p "ASTERKUBE_FILE_MAC_PROBE" "main", file_mac_probe_main)
    ∷ (is_value p "ASTERKUBE_FILE_MAC_PROBE" "peer", file_mac_probe_peer)
    ∷ (is_value p "ASTERKUBE_SOCKET_MAC_PROBE" "main", socket_mac_probe_main)
    ∷ (is_value p "ASTERKUBE_SOCKET_MAC_PROBE" "peer", socket_mac_probe_peer)
    ∷ (is_value p "ASTERKUBE_USERNS_PROBE" "child", userns_probe_child)
    ∷ (is_value p "ASTERKUBE_ROOTLESS_PROBE" "unpriv", rootless_probe_unpriv)
    ∷ (is_value p "ASTERKUBE_ROOTLESS_PROBE" "userns", rootless_probe_userns)
    ∷ (is_value p "ASTERKUBE_USERMAP_PROBE" "unpriv", usermap_probe_unpriv)
    ∷ (is_value p "ASTERKUBE_USERMAP_PROBE" "child", usermap_probe_child)
    ∷ (is_set p "ASTERKUBE_SUID_REPORT", suid_report)
    ∷ (is_value p "ASTERKUBE_SANDBOX_NETNS" "hold", sandbox_probe_hold)
    ∷ (is_value p "ASTERKUBE_SANDBOX_NETNS" "join", sandbox_probe_join)
    ∷ (is_set p "ASTERKUBE_CONTAINER", container)
    ∷ (is_set p "ASTERKUBE_RUNC_PAYLOAD", runc_payload)
    ∷ (child && is_set p "ASTERKUBE_BIND_PORT", binds_port (p.env "ASTERKUBE_BIND_PORT"))
    ∷ (
      child && is_set p "ASTERKUBE_MEM_CGROUP",
      hogs_memory (p.env "ASTERKUBE_MEM_CGROUP") (p.env "ASTERKUBE_MEM_MB"),
    )
    ∷ (
      child && is_set p "ASTERKUBE_CPU_CGROUP",
      burns_cpu (p.env "ASTERKUBE_CPU_CGROUP") (p.env "ASTERKUBE_CPU_MS"),
    )
    ∷ (child, reports_pid)
    ∷ []

-- The first test that holds.
abbrev pub choose : List (Bool × Role) → Role → Role
choose [] otherwise = otherwise
choose (g ∷ gs) otherwise = if g.0 then g.1 else choose gs otherwise

unfoldable pub role_of : Process → Role
role_of p = choose (guards p) (if not (p.pid == 1) then kubelet else init)

-- runAsInit from findJoinBundle on: the join that there is something for, and whether the node stays up.
abbrev pub try_join : Boot → Option String → JoinProg (Option Outcome)
try_join b (some dir) = join_from_bundle b dir >>= λ o. ret (some o)
try_join b none =
    if not (boot_args_configured b.env) then ret none else boot_args_join b >>= λ o. ret (some o)

abbrev pub joined_node : Option Outcome → Node → Node
joined_node none n = n
joined_node (some o) n = joined_state o n

-- Whether serveForever is called, else powerOff.
abbrev pub stays_up : Boot → Node → Bool
stays_up b n = node_is_live n || not (str_eq (b.env "ASTERKUBE_PERSIST") "")

unfoldable pub finish_boot : Boot → Node → JoinProg (Node × Bool)
finish_boot b n = find_join_bundle >>= λ dir.
    try_join b dir >>= λ o. ret (joined_node o n, stays_up b (joined_node o n))
