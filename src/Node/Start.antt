-- ===== src/Node/Start.antt =====
-- The start of a pod's container: startPodContainer and signalVethCreated of
-- cmd/asterkube-init/node.go.
pub mod Ends
use asterkube.Prelude.{
  ℕ, Bool, true, false, ◌==◌, List, [], ◌∷◌, ◌++◌, Option, none, some, String, if◌then◌else◌,
}
use asterkube.Prelude.Int.{ℤ, pos, mul64}
use asterkube.Prelude.Text.{str_append}
use asterkube.Prelude.Decimal.{itoa, print_int, is_positive}
use asterkube.Prelude.Prog.{Prog, ret, ask, bind, ◌>>=◌, ◌>>◌}
use asterkube.Node.{
  panics, PodSpec, PodNetwork, Pipe, sync, ready, created, End, reads, writes, NodeCall, makes_dir,
  removes, writes_file, makes_pipe, closes, sends, starts, Answer, refused, exists, done, number,
  NodeProg, is_refused, env_entry,
}

-- What the agent prints when it gives up.
pub data Failure : Type 0 where
  no_cgroup no_pipe no_veth_pipe not_started : Failure

pub data PodStart : Type 0 where
  gave_up : Failure → PodStart
  panicked : PodStart
  running : ℕ → PodStart

abbrev pub cgroup_of : PodSpec → String
cgroup_of spec = str_append "/sys/fs/cgroup/" spec.name

abbrev pub close_all : List End → NodeProg Unit
close_all [] = ret tt
close_all (e ∷ es) = ask (closes e) >> close_all es

-- cpuMaxPercent * 1000 in 64 bits, of a period of 100000 microseconds.
unfoldable pub write_quota : PodSpec → NodeProg (Unit {0})
write_quota spec =
    let cpu = spec.resources.cpu_max_percent in
    if is_positive cpu
    then ask (
        writes_file (str_append (cgroup_of spec) "/cpu.max")
          (str_append (print_int (mul64 cpu (pos 1000))) " 100000"))
      >> ret tt
    else ret tt

-- memoryMaxMiB << 20 in 64 bits.
unfoldable pub write_limits : PodSpec → NodeProg (Unit {0})
unfolding write_quota
write_limits spec =
    let memory = spec.resources.memory_max_mib in
    if is_positive memory
    then ask (
        writes_file (str_append (cgroup_of spec) "/memory.max")
          (print_int (mul64 memory (pos 1048576))))
      >> write_quota spec
    else write_quota spec

abbrev pub tenant_entry : PodSpec → List String
tenant_entry spec =
    if spec.tenant == 0 then [] else env_entry "ASTERKUBE_POD_TENANT" (itoa spec.tenant) ∷ []

-- The environment that the container gets.
unfoldable pub container_env : PodSpec → List String → List String
container_env spec net_env =
    spec.env
    ++ (env_entry "ASTERKUBE_POD_HOSTNAME" spec.hostname ∷ [])
    ++ tenant_entry spec
    ++ net_env

abbrev pub give_up : PodSpec → Failure → List End → NodeProg PodStart
give_up spec failure ends =
    close_all ends >> ask (removes (cgroup_of spec)) >> ret (gave_up failure)

-- From the process on: it waits for the byte on fd 3 until it is in its cgroup.
abbrev pub release : PodSpec → List End → ℕ → NodeProg PodStart
release spec passed pid = do
  _ ← ask (closes (reads sync))
  _ ← close_all passed
  _ ← ask (writes_file (str_append (cgroup_of spec) "/cgroup.procs") (itoa pid))
  _ ← ask (sends (writes sync))
  _ ← ask (closes (writes sync))
  ret (running pid)

-- Where the process does not start, only the ends of the first pipe are closed.
abbrev pub launched : PodSpec → List End → Answer → NodeProg PodStart
launched spec passed (number pid) = release spec passed pid
launched spec passed _ = give_up spec not_started (reads sync ∷ writes sync ∷ [])

unfoldable pub launch : PodSpec → List String → List End → NodeProg PodStart
launch spec net_env passed =
    ask (starts spec.command (container_env spec net_env) (reads sync ∷ passed)) >>= λ r.
    launched spec passed r

abbrev pub sync_ends : List End
sync_ends = reads sync ∷ writes sync ∷ []

-- The pipes of a pod with a network.
unfoldable pub launch_wired : PodSpec → List String → NodeProg PodStart
launch_wired spec net_env = ask (makes_pipe ready) >>= λ r.
    if is_refused r
    then give_up spec no_veth_pipe sync_ends
    else ask (makes_pipe created) >>= λ q.
        if is_refused q
        then give_up spec no_veth_pipe (sync_ends ++ (reads ready ∷ writes ready ∷ []))
        else launch spec net_env (writes ready ∷ reads created ∷ [])

abbrev pub launch_for : PodSpec → List String → Option PodNetwork → NodeProg PodStart
launch_for spec net_env none = launch spec net_env []
launch_for spec net_env (some n) = launch_wired spec net_env

-- `spec.Command[0]` is read before the network's pipes are made.
abbrev pub launch_with : PodSpec → List String → List String → NodeProg PodStart
launch_with spec net_env [] = ask panics >> ret panicked
launch_with spec net_env (name ∷ args) = launch_for spec net_env spec.network

-- In the cgroup's directory.
unfoldable pub start_in_cgroup : PodSpec → List String → NodeProg PodStart
start_in_cgroup spec net_env = do
  _ ← write_limits spec
  q ← ask (makes_pipe sync)
  if is_refused q then give_up spec no_pipe [] else launch_with spec net_env spec.command

-- A directory that is there already is used.
abbrev pub cgroup_made : PodSpec → List String → Answer → NodeProg PodStart
cgroup_made spec net_env refused = ret (gave_up no_cgroup)
cgroup_made spec net_env _ = start_in_cgroup spec net_env

unfoldable pub start_pod_container : PodSpec → List String → NodeProg PodStart
start_pod_container spec net_env =
    ask (makes_dir (cgroup_of spec)) >>= λ r. cgroup_made spec net_env r

-- The byte on fd 5; the datagram to the pod is sent by another thread, which closes the other end.
unfoldable pub signal_veth_created : PodSpec → NodeProg (Unit {0})
signal_veth_created spec = elim spec.network [
  | none ↦ ret tt
  | some n ↦ ask (sends (writes created)) >> ask (closes (writes created)) >> ret tt
]
