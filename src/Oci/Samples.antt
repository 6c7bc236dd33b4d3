-- ===== src/Oci/Samples.antt =====
-- Runs of the container runtime on small inputs, and its theorems there.
use asterkube.Prelude.{
  ℕ, Bool, true, false, List, [], ◌∷◌, ◌++◌, Option, none, some, ◌≡◌, refl, if◌then◌else◌, String,
  max,
}
use asterkube.Prelude.Int.{pos}
use asterkube.Prelude.Bits.{bit}
use asterkube.Prelude.Text.{str_eq, has_prefix, split_on}
use asterkube.Oci.Spec.{
  OciSpec, OciLinux, OciNamespace, JoinEnv, JoinRun, clone_flags_for, clone_newns, clone_newnet,
  clone_newipc, join_namespaces,
}
use asterkube.Oci.Spec.Namespaces.{
  asked, clone_flags_for_lem, Enters, to_join, join_namespaces-Enters,
}
use asterkube.Oci.Signals.{parse_signal, trim_sig, upper}
use asterkube.Prelude.Decimal.{atoi, decimal}
use asterkube.Oci.Paths.{path_join}
use asterkube.Oci.Containers.{Store, Env, failed, not_found, read_spec}
use asterkube.Oci.Create.{created_state, cmd_start}
use asterkube.Oci.Exec.{ExecEnv}
use asterkube.Mount.Options.{no_opts, apply_words, mount_cases}
use asterkube.Oci.Rootfs.{mount_options, setup_rootfs, enter_root}
use asterkube.Oci.Init.{InitEnv, Execve}
use asterkube.Oci.Commands.{run_oci_runtime}
use asterkube.Oci.Commands.{global_args, subcommand}
use asterkube.Oci.Commands.Globals.{
  GlobalFlag, root_flag, debug_flag, format_flag, in_front, set_by, global_args-in_front,
}
use asterkube.Oci.Programs.{Stat}
use asterkube.Oci.Commands.Keeping.{KeepsRest, run_oci_runtime-KeepsRest}
use asterkube.Oci.Commands.Lifecycle.{created, running, deleted, lifecycle_lem}

abbrev pod_linux : OciLinux
pod_linux = record {
  namespaces =
      record { ns_type = "pid"; path = "" }
      ∷ record { ns_type = "network"; path = "/proc/7/ns/net" }
      ∷ record { ns_type = "ipc"; path = "/proc/7/ns/ipc" }
      ∷ [];
  resources = none;
  cgroups_path = "";
}

abbrev pod_spec : OciSpec
pod_spec = record {
  oci_version = "";
  process = none;
  root = some (record { path = "rootfs"; readonly = false });
  hostname = "pod";
  mounts = [];
  linux = some pod_linux;
}

-- A new pid namespace and the mount namespace that there always is.
pod_flags : clone_flags_for pod_spec ≡ 0x20020000
unfolding clone_flags_for asterkube.Oci.Spec.fresh_flags asterkube.Oci.Spec.fresh_flag
    asterkube.Oci.Spec.always_mount_ns
pod_flags = refl

clone_flags_for_lem_example :
    bit 29 (clone_flags_for pod_spec) ≡ max (asked 29 pod_linux.namespaces) (bit 29 clone_newns)
clone_flags_for_lem_example = clone_flags_for_lem pod_spec pod_linux 29 refl

-- The second namespace cannot be entered.
abbrev no_ipc : JoinEnv
no_ipc = record {
  open_errno = λ path. none;
  setns_errno = λ path. if str_eq path "/proc/7/ns/ipc" then some 22 else none;
}

join_namespaces-Enters_example :
    Enters no_ipc (join_namespaces no_ipc pod_spec) (to_join pod_linux.namespaces)
join_namespaces-Enters_example = join_namespaces-Enters no_ipc pod_spec pod_linux refl

signals :
    (parse_signal "sigkill" ≡ pos 9)
    × (parse_signal "KILL" ≡ pos 9)
    × (parse_signal "" ≡ pos 15)
    × (parse_signal "12" ≡ pos 12)
    × (parse_signal "WINCH" ≡ pos 15)
unfolding parse_signal trim_sig upper atoi decimal asterkube.Prelude.Words.bytes_eq
signals = (refl, refl, refl, refl, refl)

-- A destination that climbs leaves the root filesystem.
climbing : path_join ("/run/rootfs" ∷ "/../../etc" ∷ []) ≡ "/etc"
unfolding path_join asterkube.Oci.Paths.given asterkube.Oci.Paths.clean
    asterkube.Oci.Paths.clean_elements asterkube.Oci.Paths.turn asterkube.Oci.Paths.is_abs
    has_prefix asterkube.Prelude.Text.split_on asterkube.Prelude.Text.join
climbing = refl

abbrev working : Env
working = record {
  cwd = "/";
  config = λ bundle. some pod_spec;
  mkdir = none;
  mkfifo = none;
  fork = some 4242;
  cgroup_mkdir = none;
  write_state = none;
  write_pid_file = none;
  open_fifo = none;
  pid_alive = λ pid. true;
  kill = none;
  remove_all = none;
  now = "now";
}

abbrev no_exec : ExecEnv
no_exec = record {
  process = λ path. none;
  stat = λ path. none;
  text = λ path. "";
  is_dir = λ path. false;
  opens = λ path. false;
  openpty = none;
  open_slave = none;
  start = none;
  send_fd = none;
  exit_status = 0;
}

abbrev empty_store : Store
empty_store = λ root id. none

abbrev create_line : List String
create_line = "--root" ∷ "/run/r" ∷ "create" ∷ "--bundle" ∷ "/b" ∷ "c1" ∷ []

run_oci_runtime-KeepsRest_example :
    (root : String) × KeepsRest root empty_store
      (run_oci_runtime working no_exec create_line empty_store).store
run_oci_runtime-KeepsRest_example =
    run_oci_runtime-KeepsRest working no_exec create_line empty_store

lifecycle_lem_example :
    (created working "/run/r" "/b" "c1" empty_store "/run/r" "c1"
      ≡ some (record {
        state = some (created_state working "/run/r" "c1" "/b" pod_spec 4242);
        fifo = true;
      }))
    × (running working "/run/r" "/b" "c1" empty_store "/run/r" "c1"
        ≡ some (record {
          state = some (record (created_state working "/run/r" "c1" "/b" pod_spec 4242) {
            status = "running";
          });
          fifo = false;
        }))
    × ((cmd_start working "/run/r"
          ("c1" ∷ [])
          (running working "/run/r" "/b" "c1" empty_store)).ending
        ≡ failed not_found)
    × (deleted working "/run/r" "/b" "c1" empty_store "/run/r" "c1" ≡ none)
unfolding has_prefix read_spec
lifecycle_lem_example =
    lifecycle_lem working "/run/r" "/b" "c1" empty_store pod_spec 4242
      (record {
        mkdir = refl;
        mkfifo = refl;
        write_state = refl;
        open_fifo = refl;
        remove_all = refl;
      })
      (record { nonempty = refl; no_dash = refl }) refl refl refl

-- `rprivate` is a flag for the mount command, and data for the container runtime.
rprivate_differs : (mount_options ("rprivate" ∷ [])).data_words ≡ "rprivate" ∷ []
unfolding mount_options apply_words asterkube.Mount.Options.apply_word
    asterkube.Mount.Options.effect_of asterkube.Oci.Rootfs.oci_cases
rprivate_differs = refl

abbrev shell_spec : OciSpec
shell_spec = record pod_spec {
  process = some (record { terminal = false; cwd = "/"; env = "PATH=/bin" ∷ []; args = "sh" ∷ [] });
}

abbrev ready_init : InitEnv
ready_init = record {
  spec = some shell_spec;
  join = record { open_errno = λ path. none; setns_errno = λ path. none };
  open_fifo = none;
  root = record {
    make_private = none;
    bind_rootfs = none;
    pivot = some 22;
    chroot = none;
    chdir = none;
  };
  reopen = none;
  signal = none;
  stat = λ path.
      if str_eq path "/bin/sh" then some (record { is_dir = false; executable = true }) else none;
}

abbrev shell : Execve
shell = record { program = "/bin/sh"; args = "sh" ∷ []; env = "PATH=/bin" ∷ [] }

-- Where pivot_root fails, chroot enters the root, but the error of chdir alone is the result.
pivot_fallback : (setup_rootfs ready_init.root "/b/rootfs" shell_spec).err ≡ none
unfolding setup_rootfs enter_root
pivot_fallback = refl

abbrev shim_flags : List GlobalFlag
shim_flags = root_flag "/run/a" ∷ debug_flag ∷ format_flag "json" ∷ root_flag "/run/b" ∷ []

global_args-in_front_example :
    global_args (in_front shim_flags ("start" ∷ "c1" ∷ [])) (record { root = ""; log = "" })
    ≡ subcommand (set_by shim_flags (record { root = ""; log = "" })) ("start" ∷ "c1" ∷ [])
unfolding has_prefix
global_args-in_front_example =
    global_args-in_front shim_flags "start" ("c1" ∷ []) (record { root = ""; log = "" }) refl refl

abbrev one_shell : String → Option Stat
one_shell path =
    if str_eq path "/c/bin/sh" then some (record { is_dir = false; executable = true }) else none
