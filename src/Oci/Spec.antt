-- ===== src/Oci/Spec.antt =====
-- The container's configuration, and what its namespaces ask for: cloneFlagsFor and joinNamespaces of
-- cmd/asterkube-init/ociruntime_linux.go.
pub mod Namespaces
use asterkube.Prelude.{
  ℕ, Bool, List, [], ◌∷◌, Option, none, some, if◌then◌else◌, bit_or, bit_and, String, ◌==◌,
}
use asterkube.Prelude.Int.{ℤ}
use asterkube.Prelude.Text.{str_eq}

pub record OciProcess : Type 0 where
  pub terminal : Bool
  pub cwd : String
  pub env : List String
  pub args : List String

pub record OciRoot : Type 0 where
  pub path : String
  pub readonly : Bool

pub record OciMount : Type 0 where
  pub destination : String
  pub mount_type : String
  pub source : String
  pub options : List String

pub record OciNamespace : Type 0 where
  pub ns_type : String
  pub path : String

-- The limits, each a pointer in the source: of memory, and a quota and a period of the processor.
pub record OciCpu : Type 0 where
  pub quota : Option ℤ
  pub period : Option ℕ

pub record OciResources : Type 0 where
  pub memory : Option (Option ℤ)
  pub cpu : Option OciCpu

pub record OciLinux : Type 0 where
  pub namespaces : List OciNamespace
  pub resources : Option OciResources
  pub cgroups_path : String

pub record OciSpec : Type 0 where
  pub oci_version : String
  pub process : Option OciProcess
  pub root : Option OciRoot
  pub hostname : String
  pub mounts : List OciMount
  pub linux : Option OciLinux

abbrev pub clone_newns : ℕ
clone_newns = 0x20000

abbrev pub clone_newcgroup : ℕ
clone_newcgroup = 0x2000000

abbrev pub clone_newuts : ℕ
clone_newuts = 0x4000000

abbrev pub clone_newipc : ℕ
clone_newipc = 0x8000000

abbrev pub clone_newuser : ℕ
clone_newuser = 0x10000000

abbrev pub clone_newpid : ℕ
clone_newpid = 0x20000000

abbrev pub clone_newnet : ℕ
clone_newnet = 0x40000000

-- The switch of cloneFlagsFor.
unfoldable pub fresh_flag : String → Option ℕ
fresh_flag t =
    if str_eq t "pid"
    then some clone_newpid
    else if str_eq t "mount"
    then some clone_newns
    else if str_eq t "ipc"
    then some clone_newipc
    else if str_eq t "uts"
    then some clone_newuts
    else if str_eq t "network"
    then some clone_newnet
    else if str_eq t "cgroup"
    then some clone_newcgroup
    else if str_eq t "user"
    then some clone_newuser
    else none

abbrev pub with_flag : Option ℕ → ℕ → ℕ
with_flag none f = f
with_flag (some flag) f = bit_or f flag

-- `for _, ns := range spec.Linux.Namespaces`: a namespace with a path is not made.
unfoldable pub fresh_flags : List OciNamespace → ℕ → ℕ
fresh_flags [] f = f
fresh_flags (ns ∷ more) f =
    fresh_flags more (if str_eq ns.path "" then with_flag (fresh_flag ns.ns_type) f else f)

unfoldable pub always_mount_ns : ℕ → ℕ
always_mount_ns f = if bit_and f clone_newns == 0 then bit_or f clone_newns else f

unfoldable pub clone_flags_for : OciSpec → ℕ
clone_flags_for spec = elim spec.linux [
  | none ↦ clone_newns
  | some linux ↦ always_mount_ns (fresh_flags linux.namespaces 0)
]

-- The switch of joinNamespaces; a pid or mount namespace is not joined.
unfoldable pub join_flag : String → Option ℕ
join_flag t =
    if str_eq t "network"
    then some clone_newnet
    else if str_eq t "ipc"
    then some clone_newipc
    else if str_eq t "uts"
    then some clone_newuts
    else if str_eq t "cgroup"
    then some clone_newcgroup
    else none

-- A namespace that setns(2) entered: its path, and the kind that was asked for.
pub record Joined : Type 0 where
  pub path : String
  pub flag : ℕ

pub data JoinError : Type 0 where
  open_failed : String → ℕ → JoinError
  setns_failed : String → ℕ → JoinError

-- What joinNamespaces entered before it ended, and its error.
pub record JoinRun : Type 0 where
  pub joined : List Joined
  pub err : Option JoinError

-- What open(2) and setns(2) answer for a namespace's path.
pub record JoinEnv : Type 0 where
  pub open_errno : String → Option ℕ
  pub setns_errno : String → Option ℕ

-- One namespace with its answers, and the ones behind it.
abbrev pub join_outcome : OciNamespace → ℕ → Option ℕ → Option ℕ → JoinRun → JoinRun
join_outcome ns flag (some e) setns rest = record {
  joined = [];
  err = some (open_failed ns.ns_type e);
}
join_outcome ns flag none (some e) rest = record {
  joined = [];
  err = some (setns_failed ns.ns_type e);
}
join_outcome ns flag none none rest = record rest {
  joined = record { path = ns.path; flag = flag } ∷ rest.joined;
}

unfoldable pub join_one : JoinEnv → OciNamespace → ℕ → JoinRun → JoinRun
join_one env ns flag rest =
    join_outcome ns flag (env.open_errno ns.path) (env.setns_errno ns.path) rest

unfoldable pub join_all : JoinEnv → List OciNamespace → JoinRun
join_all env [] = record { joined = []; err = none }
join_all env (ns ∷ more) =
    let rest = join_all env more in
    if str_eq ns.path ""
    then rest
    else elim (join_flag ns.ns_type) [ none ↦ rest | some flag ↦ join_one env ns flag rest ]

unfoldable pub join_namespaces : JoinEnv → OciSpec → JoinRun
join_namespaces env spec = elim spec.linux [
  | none ↦ record { joined = []; err = none }
  | some linux ↦ join_all env linux.namespaces
]
