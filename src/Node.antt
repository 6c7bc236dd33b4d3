-- ===== src/Node.antt =====
-- The node agent, cmd/asterkube-init/node.go and tenant_adapter_linux.go: the pods of the manifests, and
-- what it asks of the kernel for them.
pub mod Start
mod Samples
pub mod Tenants
pub mod Wait
pub mod Bridged
pub mod Agent
pub mod Container
use asterkube.Prelude.{
  ℕ, ◌+◌, [], ◌∷◌, Bool, true, false, ◌&&◌, not, List, Option, none, some, String,
}
use asterkube.Prelude.Int.{ℤ}
use asterkube.Prelude.Text.{str_eq, str_append, take_text}
use asterkube.Prelude.Prog.{Prog, History, System}

pub record PodResources : Type 0 where
  pub memory_max_mib : ℤ
  pub cpu_max_percent : ℤ

pub record PodNetwork : Type 0 where
  pub pod_ip : String
  pub host_ip : String
  pub prefix : ℤ
  pub bridge : String
  pub gateway_ip : String
  pub peer_ip : String
  pub service_vip : String
  pub service_port : ℤ
  pub backend_port : ℤ
  pub service_role : String
  pub cross_ping_ip : String
  pub uplink : Bool
  pub masq_role : String
  pub masq_target : String
  pub tenant_probe_ip : String

pub record PodSpec : Type 0 where
  pub name : String
  pub hostname : String
  pub command : List String
  pub env : List String
  pub resources : PodResources
  pub network : Option PodNetwork
  pub tenant : ℕ

unfoldable pub bridged : PodSpec → Bool
bridged s = elim s.network [ none ↦ false | some n ↦ not (str_eq n.bridge "") ]

-- The pipes of startPodContainer: that of fd 3, and those of fd 4 and fd 5.
pub data Pipe : Type 0 where
  sync ready created : Pipe

pub data End : Type 0 where
  reads : Pipe → End
  writes : Pipe → End

-- What the agent asks of the kernel. The netlink requests are named by the methods that send them.
pub data NodeCall : Type 0 where
  makes_dir : String → NodeCall
  removes : String → NodeCall
  writes_file : String → String → NodeCall
  makes_pipe : Pipe → NodeCall
  closes : End → NodeCall
  sends : End → NodeCall
  starts : List String → List String → List End → NodeCall
  -- The wait for the process, of so many milliseconds at most: refused where the time is over.
  waits : ℕ → NodeCall
  kills : ℕ → NodeCall
  opens_netlink : NodeCall
  closes_netlink : NodeCall
  creates_veth : String → ℕ → NodeCall
  creates_port : String → ℕ → ℕ → NodeCall
  creates_bridge : String → NodeCall
  finds_link : String → NodeCall
  adds_addr : ℕ → String → ℤ → NodeCall
  marks_uplink : ℕ → NodeCall
  programs_dnat : ℕ → ℕ → ℕ → ℕ → NodeCall
  labels_ip : ℕ → ℕ → NodeCall
  sets_mode : ℕ → NodeCall
  -- No call: the program panics, which ends the process and all that runs in it.
  panics : NodeCall

-- An error, an error that says that the thing is there, none, and none with a number: an index or a pid.
pub data Answer : Type 0 where
  refused exists done : Answer
  number : ℕ → Answer

abbrev pub NodeProg : Type 0 → Type 0
NodeProg A = Prog NodeCall Answer A

abbrev pub NodeHistory : Type 0
NodeHistory = History NodeCall Answer

abbrev pub Kernel : Type 0
Kernel = System NodeCall Answer

-- How often the program has panicked.
abbrev pub panic_count : NodeHistory → ℕ
panic_count [] = 0
panic_count ((panics, r) ∷ h) = 1 + panic_count h
panic_count (x ∷ h) = panic_count h

abbrev pub is_refused : Answer → Bool
is_refused refused = true
is_refused exists = true
is_refused done = false
is_refused (number n) = false

-- `NAME=value`
abbrev pub env_entry : String → String → String
env_entry name value = str_append name (str_append "=" value)

-- The host's end of a pod's veth pair, cut to the 15 bytes that the kernel takes.
unfoldable pub host_name : PodSpec → String
host_name spec = take_text 15 (str_append "veth-" spec.name)
