-- ===== src/Oci/Containers.antt =====
-- The containers' state on disk, and what a command of the runtime is, from
-- cmd/asterkube-init/ociruntime_linux.go.
use asterkube.Prelude.{
  or_else, ℕ, Bool, false, ◌&&◌, ◌||◌, List, [], ◌∷◌, Option, none, some, if◌then◌else◌, String,
}
use asterkube.Prelude.Int.{ℤ}
use asterkube.Prelude.Text.{str_eq, has_prefix}
use asterkube.Oci.Paths.{path_join, is_abs}
use asterkube.Oci.Spec.{OciSpec}
use asterkube.Oci.Cgroup.{Write}

pub record ContainerState : Type 0 where
  pub oci_version : String
  pub id : String
  pub init_pid : ℕ
  pub status : String
  pub bundle : String
  pub rootfs : String
  pub created : String
  pub cgroup_path : String

-- The directory of a container: `state.json`, as the library's encoding reads it back, and whether
-- `exec.fifo` is there.
pub record Dir : Type 0 where
  pub state : Option ContainerState
  pub fifo : Bool

-- The directories that there are, by the runtime's root and the container's id, a path element.
abbrev pub Store : Type 0
Store = String → String → Option Dir

abbrev pub put : String → String → Option Dir → Store → Store
put root id d s = λ r i. if str_eq r root && str_eq i id then d else s r i

abbrev pub Fails : Type 0
Fails = Option ℕ

-- What the system answers during one command. `fork` gives the new process.
pub record Env : Type 0 where
  pub cwd : String
  pub config : String → Option OciSpec
  pub mkdir : Fails
  pub mkfifo : Fails
  pub fork : Option ℕ
  pub cgroup_mkdir : Fails
  pub write_state : Fails
  pub write_pid_file : Fails
  pub open_fifo : Fails
  pub pid_alive : ℕ → Bool
  pub kill : Fails
  pub remove_all : Fails
  pub now : String

-- What `state` prints.
pub record Report : Type 0 where
  pub state : ContainerState
  pub status : String

-- A process that exec starts in a container: its program, arguments, directory and environment, the
-- chroot, the user and group where they are set, and whether it has a terminal of its own.
pub record Started : Type 0 where
  pub program : String
  pub args : List String
  pub dir : String
  pub env : List String
  pub chroot : String
  pub credential : Option (ℕ × ℕ)
  pub own_terminal : Bool

pub data Call : Type 0 where
  joins_ns : String → ℕ → Call
  writes_text : String → String → Call
  starts_in_container : Started → Call
  sends_terminal : String → Call
  start_process : ℕ → List String → Call
  writes_file : Write → Call
  kills : ℕ → ℤ → Call
  removes : String → Call
  prints_state : Report → Call
  prints_pid : Bool → ℕ → Call
  prints_version : Call
  prints_help : Call

pub data RuntimeError : Type 0 where
  no_container_id : RuntimeError
  no_spec : RuntimeError
  not_found : RuntimeError
  no_process : RuntimeError
  not_running : RuntimeError
  no_process_spec : RuntimeError
  no_command : RuntimeError
  command_not_found : RuntimeError
  no_terminal : RuntimeError
  system : ℕ → RuntimeError

-- A command ends well, with an error, in a panic where it reads behind its arguments, or with the exit
-- code of a process that it waited for.
pub data Ending : Type 0 where
  done : Ending
  failed : RuntimeError → Ending
  panicked : Ending
  exited : ℕ → Ending

pub record Run : Type 0 where
  pub store : Store
  pub calls : List Call
  pub ending : Ending

abbrev pub stops : Store → RuntimeError → Run
stops s e = record { store = s; calls = []; ending = failed e }

abbrev pub ending_of : Fails → Ending
ending_of none = done
ending_of (some e) = failed (system e)

unfoldable pub or_default : String → String → String
or_default s def = if str_eq s "" then def else s

unfoldable pub contains_arg : List String → String → Bool
contains_arg [] want = false
contains_arg (a ∷ args) want = str_eq a want || contains_arg args want

-- The last argument that is no option; it may be the empty text.
abbrev pub last_named : List String → Option String
last_named [] = none
last_named (a ∷ args) = elim (last_named args) [
  | some b ↦ some b
  | none ↦ if has_prefix a "-" then none else some a
]

-- That argument, or "".
unfoldable pub last_arg : List String → String
last_arg args = or_else (last_named args) ""

abbrev pub state_of : Option Dir → Option ContainerState
state_of none = none
state_of (some d) = d.state

unfoldable pub read_state : String → String → Store → Option ContainerState
read_state root id s = state_of (s root id)

abbrev pub has_fifo : Option Dir → Bool
has_fifo none = false
has_fifo (some d) = d.fifo

-- `readSpec`: a missing root is `rootfs`.
abbrev with_root : OciSpec → OciSpec
with_root spec = elim spec.root [
  | some r ↦ spec
  | none ↦ record spec { root = some (record { path = "rootfs"; readonly = false }) }
]

unfoldable pub read_spec : Env → String → Option OciSpec
read_spec env bundle = elim (env.config bundle) [ none ↦ none | some spec ↦ some (with_root spec) ]

abbrev root_path : OciSpec → String
root_path spec = elim spec.root [ none ↦ "" | some r ↦ r.path ]

unfoldable pub rootfs_of : String → OciSpec → String
rootfs_of bundle spec =
    let p = root_path spec in if is_abs p then p else path_join (bundle ∷ p ∷ [])
