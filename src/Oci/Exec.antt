-- ===== src/Oci/Exec.antt =====
-- A process in a running container: cmdExec of cmd/asterkube-init/runc_exec_linux.go.
pub mod Leaves
use asterkube.Prelude.{
  ℕ, zero, suc, ◌/◌, ◌%◌, Bool, true, false, not, ◌&&◌, ◌||◌, List, [], ◌∷◌, ◌++◌, Option, none,
  some, if◌then◌else◌, String, ◌==◌, get_or,
}
use asterkube.Prelude.Int.{pos}
use asterkube.Prelude.Text.{str_eq, str_append, has_prefix, cut_prefix, contains_byte}
use asterkube.Prelude.Decimal.{itoa}
use asterkube.Oci.Spec.{clone_newnet, clone_newipc, clone_newuts, clone_newcgroup}
use asterkube.Oci.Cgroup.{number}
use asterkube.Oci.Programs.{Stat, resolve_in_rootfs, default_path}
use asterkube.Oci.Containers.{
  ContainerState, Store, Env, Fails, Call, joins_ns, removes, writes_text, writes_file,
  starts_in_container, sends_terminal, Started, RuntimeError, no_container_id, not_found,
  not_running, no_process_spec, no_command, command_not_found, no_terminal, no_process, system,
  Ending, done, failed, panicked, exited, Run, stops, read_state,
}
use asterkube.Oci.Controls.{has_pid}

pub record ExecProcess : Type 0 where
  pub terminal : Bool
  pub cwd : String
  pub env : List String
  pub args : List String
  pub uid : ℕ
  pub gid : ℕ

-- What the system answers: the process file as it is parsed (`none` where it cannot be read or parsed),
-- stat(2), the texts of files, which paths are directories, open(2) of a namespace, the new terminal's
-- other end, the new process, and the exit code of the process that was waited for.
pub record ExecEnv : Type 0 where
  pub process : String → Option ExecProcess
  pub stat : String → Option Stat
  pub text : String → String
  pub is_dir : String → Bool
  pub opens : String → Bool
  pub openpty : Option String
  pub open_slave : Fails
  pub start : Option ℕ
  pub send_fd : Fails
  pub exit_status : ℕ

-- The variables that the arguments set.
pub record ExecArgs : Type 0 where
  pub process_path : String
  pub console_socket : String
  pub pid_file : String
  pub id : String
  pub detach : Bool
  pub tty : Bool

abbrev pub no_args : ExecArgs
no_args = record {
  process_path = "";
  console_socket = "";
  pid_file = "";
  id = "";
  detach = false;
  tty = false;
}

-- An argument that takes none along.
unfoldable pub exec_arg : String → ExecArgs → ExecArgs
exec_arg a x =
    if has_prefix a "--process="
    then record x { process_path = cut_prefix a "--process=" }
    else if has_prefix a "--console-socket="
    then record x { console_socket = cut_prefix a "--console-socket=" }
    else if has_prefix a "--pid-file="
    then record x { pid_file = cut_prefix a "--pid-file=" }
    else if str_eq a "-d" || str_eq a "--detach"
    then record x { detach = true }
    else if str_eq a "-t" || str_eq a "--tty"
    then record x { tty = true }
    else if has_prefix a "-"
    then x
    else record x { id = a }

abbrev is_process_flag : String → Bool
is_process_flag a = str_eq a "--process" || str_eq a "-p"

abbrev wants_value : String → Bool
wants_value a = is_process_flag a || (str_eq a "--console-socket" || str_eq a "--pid-file")

-- The flags that `exec_arg` knows.
abbrev known : String → Bool
known a =
    has_prefix a "--process="
    || (has_prefix a "--console-socket="
        || (has_prefix a "--pid-file="
            || (str_eq a "-d" || (str_eq a "--detach" || (str_eq a "-t" || str_eq a "--tty")))))

-- An unknown flag takes the next argument along if that does not look like a flag.
abbrev takes_next : String → String → Bool
takes_next a next =
    has_prefix a "-" && (not (known a) && (not (contains_byte 61 a) && not (has_prefix next "-")))

-- The loop of cmdExec; `none` where it reads behind the arguments.
unfoldable pub exec_args : List String → ExecArgs → Option ExecArgs
exec_args [] x = some x
exec_args (a ∷ []) x = if wants_value a then none else some (exec_arg a x)
exec_args (a ∷ v ∷ rest) x =
    let process = exec_args rest (record x { process_path = v }) in
    let console = exec_args rest (record x { console_socket = v }) in
    let pid = exec_args rest (record x { pid_file = v }) in
    let skipped = exec_args rest x in
    let next = exec_args (v ∷ rest) (exec_arg a x) in
    if is_process_flag a
    then process
    else if str_eq a "--console-socket"
    then console
    else if str_eq a "--pid-file"
    then pid
    else if takes_next a v
    then skipped
    else next

-- `/proc/<pid>/<what>`
abbrev proc_path : ℕ → String → String
proc_path pid what = str_append "/proc/" (str_append (itoa pid) (str_append "/" what))

unfoldable pub join_call : ExecEnv → ℕ → String → ℕ → List Call
join_call x pid name flag =
    let path = proc_path pid name in if x.opens path then joins_ns path flag ∷ [] else []

-- The namespaces that exec can enter.
unfoldable pub join_calls : ExecEnv → ℕ → List Call
join_calls x pid =
    join_call x pid "ns/net" clone_newnet
    ++ (join_call x pid "ns/ipc" clone_newipc
        ++ (join_call x pid "ns/uts" clone_newuts ++ join_call x pid "ns/cgroup" clone_newcgroup))

-- The first of the two sources that is not empty replaces the resolver's file below the rootfs.
unfoldable pub resolver_calls : ExecEnv → ContainerState → List Call
resolver_calls x st =
    let target = str_append st.rootfs "/etc/resolv.conf" in
    let its = x.text (proc_path st.init_pid "root/etc/resolv.conf") in
    let data_text = if str_eq its "" then x.text "/etc/resolv.conf" else its in
    if str_eq data_text ""
    then []
    else (if x.is_dir target then removes target ∷ [] else []) ++ writes_text target data_text ∷ []

unfoldable pub has_path : List String → Bool
has_path [] = false
has_path (e ∷ env) = has_prefix e "PATH=" || has_path env

unfoldable pub with_path : List String → List String
with_path env = if has_path env then env else env ++ str_append "PATH=" default_path ∷ []

unfoldable pub started : ContainerState → ExecProcess → String → Bool → Started
started st p program own = record {
  program = program;
  args = p.args;
  dir = if str_eq p.cwd "" then "/" else p.cwd;
  env = with_path p.env;
  chroot = st.rootfs;
  credential = if p.uid == 0 && p.gid == 0 then none else some (p.uid, p.gid);
  own_terminal = own;
}

module _ (x : ExecEnv) (a : ExecArgs) (s : Store) where
  abbrev fails_after : List Call → RuntimeError → Run
  fails_after calls e = record { store = s; calls = calls; ending = failed e }

  -- With a terminal of its own the process is left to the shim, which gets the terminal.
  abbrev send_ending : Fails → Ending
  send_ending none = done
  send_ending (some e) = failed (system e)

  abbrev wait_ending : ℕ → Ending
  wait_ending n = if n == 0 then done else exited n

  -- From the start of the process on.
  unfoldable pub exec_started : List Call → Started → Run
  exec_started before start = elim x.start [
    | none ↦ fails_after before no_process
    | some pid ↦
        let pid_write =
          if str_eq a.pid_file ""
          then []
          else writes_file (record { file = a.pid_file; content = number (pos pid) }) ∷ [] in
        let calls = before ++ starts_in_container start ∷ pid_write in
        if start.own_terminal
        then record {
          store = s;
          calls = calls ++ sends_terminal a.console_socket ∷ [];
          ending = send_ending x.send_fd;
        }
        else record {
          store = s;
          calls = calls;
          ending = if a.detach then done else wait_ending x.exit_status;
        }
  ]

  unfoldable pub exec_program : ContainerState → ExecProcess → String → Run
  exec_program st p program =
      let before = join_calls x st.init_pid ++ resolver_calls x st in
      let own = (p.terminal || a.tty) && not (str_eq a.console_socket "") in
      let go = exec_started before (started st p program own) in
      if own
      then elim x.openpty [
        | none ↦ fails_after before no_terminal
        | some slave ↦ elim x.open_slave [ some e ↦ fails_after before (system e) | none ↦ go ]
      ]
      else go

  abbrev pub exec_command : ContainerState → ExecProcess → List String → Run
  exec_command st p [] = stops s no_command
  exec_command st p (cmd ∷ args) = elim (resolve_in_rootfs x.stat st.rootfs cmd p.env) [
    | none ↦ stops s command_not_found
    | some program ↦ exec_program st p program
  ]

  -- Without a process file the process has no command.
  unfoldable pub exec_container : Env → ContainerState → Run
  exec_container env st =
      if not (has_pid st) || not (env.pid_alive st.init_pid)
      then stops s not_running
      else if str_eq a.process_path ""
      then stops s no_command
      else elim (x.process a.process_path) [
        | none ↦ stops s no_process_spec
        | some p ↦ exec_command st p p.args
      ]

  unfoldable pub exec_in_store : Env → String → Run
  exec_in_store env root =
      if str_eq a.id "" then stops s no_container_id else elim (read_state root a.id s) [
        | none ↦ stops s not_found
        | some st ↦ exec_container env st
      ]

unfoldable pub cmd_exec : Env → ExecEnv → String → List String → Store → Run
cmd_exec env x root args s = elim (exec_args args no_args) [
  | none ↦ record { store = s; calls = []; ending = panicked }
  | some a ↦ exec_in_store x a s env root
]
