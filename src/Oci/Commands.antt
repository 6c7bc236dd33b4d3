-- ===== src/Oci/Commands.antt =====
-- The command line of the runtime: runOCIRuntime of cmd/asterkube-init/ociruntime_linux.go.
pub mod Keeping
pub mod Lifecycle
pub mod Globals
use asterkube.Prelude.{
  ℕ, Bool, true, false, not, ◌&&◌, ◌||◌, List, [], ◌∷◌, Option, none, some, if◌then◌else◌, String,
}
use asterkube.Prelude.Text.{str_eq, has_prefix, cut_prefix, contains_byte}
use asterkube.Oci.Containers.{
  Store, Env, Call, prints_version, prints_help, RuntimeError, Ending, done, failed, panicked,
  exited, Run,
}
use asterkube.Oci.Create.{cmd_create, cmd_start}
use asterkube.Oci.Exec.{ExecEnv, cmd_exec}
use asterkube.Oci.Controls.{cmd_state, cmd_kill, cmd_delete, cmd_ps}

pub record RuntimeGlobals : Type 0 where
  pub root : String
  pub log : String

abbrev pub default_runtime_root : String
default_runtime_root = "/run/asterkube-runc"

-- What the loop over the global flags ends with: the version or help printed, a panic, or the arguments
-- from the subcommand on.
pub data Parsed : Type 0 where
  version : Parsed
  help : Parsed
  out_of_range : Parsed
  subcommand : RuntimeGlobals → List String → Parsed

-- The cases of the switch on a global flag. `maybe_value` is an unknown flag.
pub data GlobalCase : Type 0 where
  root_value : GlobalCase
  log_value : GlobalCase
  skipped_value : GlobalCase
  sets : RuntimeGlobals → GlobalCase
  shows_version : GlobalCase
  shows_help : GlobalCase
  maybe_value : GlobalCase
  no_flag : GlobalCase

unfoldable pub global_case : String → RuntimeGlobals → GlobalCase
global_case a g =
    if str_eq a "--root"
    then root_value
    else if has_prefix a "--root="
    then sets (record g { root = cut_prefix a "--root=" })
    else if str_eq a "--log"
    then log_value
    else if has_prefix a "--log="
    then sets (record g { log = cut_prefix a "--log=" })
    else if str_eq a "--log-format"
    then skipped_value
    else if has_prefix a "--log-format="
    then sets g
    else if str_eq a "--version" || (str_eq a "-v" || str_eq a "version")
    then shows_version
    else if str_eq a "--help" || str_eq a "-h"
    then shows_help
    else if str_eq a "--systemd-cgroup" || (str_eq a "--debug" || str_eq a "--rootless")
    then sets g
    else if has_prefix a "--"
    then maybe_value
    else no_flag

unfoldable pub is_global_value_flag : String → Bool
is_global_value_flag a = str_eq a "--log" || (str_eq a "--root" || str_eq a "--log-format")

-- Whether an unknown flag takes the argument behind it along.
unfoldable pub skips_next : String → String → Bool
skips_next a next =
    not (contains_byte 61 a) && (not (has_prefix next "-") && is_global_value_flag a)

unfoldable pub global_args : List String → RuntimeGlobals → Parsed
global_args [] g = subcommand g []
global_args (a ∷ []) g = elim (global_case a g) [
  | root_value ↦ out_of_range
  | log_value ↦ out_of_range
  | skipped_value ↦ subcommand g []
  | sets h ↦ subcommand h []
  | shows_version ↦ version
  | shows_help ↦ help
  | maybe_value ↦ subcommand g []
  | no_flag ↦ subcommand g (a ∷ [])
]
global_args (a ∷ v ∷ rest) g = elim (global_case a g) [
  | root_value ↦ global_args rest (record g { root = v })
  | log_value ↦ global_args rest (record g { log = v })
  | skipped_value ↦ global_args rest g
  | sets h ↦ global_args (v ∷ rest) h
  | shows_version ↦ version
  | shows_help ↦ help
  | maybe_value ↦
      let skipped = global_args rest g in
      let next = global_args (v ∷ rest) g in if skips_next a v then skipped else next
  | no_flag ↦ subcommand g (a ∷ v ∷ rest)
]

-- The exit codes of a run; 2 is a panic's.
abbrev pub exit_code : Ending → ℕ
exit_code done = 0
exit_code (failed e) = 1
exit_code panicked = 2
exit_code (exited n) = n

pub record CliRun : Type 0 where
  pub store : Store
  pub calls : List Call
  pub exit : ℕ

abbrev pub exits : ℕ → List Call → Store → CliRun
exits n calls s = record { store = s; calls = calls; exit = n }

abbrev pub ended : Run → CliRun
ended r = record { store = r.store; calls = r.calls; exit = exit_code r.ending }

-- The switch on the subcommand.
unfoldable pub dispatch : Env → ExecEnv → String → String → List String → Store → CliRun
dispatch env exec_env root cmd rest s =
    if str_eq cmd "--version" || str_eq cmd "version"
    then exits 0 (prints_version ∷ []) s
    else if str_eq cmd "features"
    then exits 1 [] s
    else if str_eq cmd "create"
    then ended (cmd_create env root rest s)
    else if str_eq cmd "start"
    then ended (cmd_start env root rest s)
    else if str_eq cmd "state"
    then ended (cmd_state env root rest s)
    else if str_eq cmd "kill"
    then ended (cmd_kill env root rest s)
    else if str_eq cmd "delete"
    then ended (cmd_delete env root rest s)
    else if str_eq cmd "exec"
    then ended (cmd_exec env exec_env root rest s)
    else if str_eq cmd "ps"
    then ended (cmd_ps env root rest s)
    else if str_eq cmd "update"
        || (str_eq cmd "pause" || (str_eq cmd "resume" || str_eq cmd "events"))
    then exits 0 [] s
    else exits 1 [] s

abbrev pub after_globals : Env → ExecEnv → Store → Parsed → CliRun
after_globals env exec_env s version = exits 0 (prints_version ∷ []) s
after_globals env exec_env s help = exits 0 (prints_help ∷ []) s
after_globals env exec_env s out_of_range = exits 2 [] s
after_globals env exec_env s (subcommand g []) = exits 1 [] s
after_globals env exec_env s (subcommand g (cmd ∷ rest)) = dispatch env exec_env g.root cmd rest s

unfoldable pub run_oci_runtime : Env → ExecEnv → List String → Store → CliRun
run_oci_runtime env exec_env args s =
    after_globals env exec_env s
      (global_args args (record { root = default_runtime_root; log = "" }))
