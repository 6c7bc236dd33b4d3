-- ===== src/Oci/Init.antt =====
-- The container's init, which waits for start and becomes the program: runcInit of
-- cmd/asterkube-init/ociruntime_linux.go.
pub mod Execs
use asterkube.Prelude.{ℕ, Bool, List, [], ◌∷◌, ◌++◌, Option, none, some, if◌then◌else◌, String, map}
use asterkube.Prelude.Text.{str_eq}
use asterkube.Mount.Applet.{Fails}
use asterkube.Oci.Paths.{path_join}
use asterkube.Oci.Spec.{OciSpec, OciProcess, Joined, JoinEnv, JoinRun, join_namespaces}
use asterkube.Oci.Rootfs.{RootCall, RootEnv, RootRun, setup_rootfs}
use asterkube.Oci.Programs.{Stat, resolve_in_root_path}
use asterkube.Oci.Containers.{rootfs_of}

-- What the init does, in its order. `waits` is the open of the fifo for writing, which returns when start
-- opens it for reading.
pub data InitCall : Type 0 where
  joins : Joined → InitCall
  opens_fifo : String → InitCall
  sets_hostname : String → InitCall
  sets_root : RootCall → InitCall
  waits : InitCall
  signals : InitCall
  goes_to : String → InitCall

-- The execve(2) at the end.
pub record Execve : Type 0 where
  pub program : String
  pub args : List String
  pub env : List String

-- The calls, and the execve if it comes to that. Otherwise, and if it fails, the exit code is 1.
pub record InitRun : Type 0 where
  pub calls : List InitCall
  pub execve : Option Execve

-- What the system answers, and what readSpec gives.
pub record InitEnv : Type 0 where
  pub spec : Option OciSpec
  pub join : JoinEnv
  pub open_fifo : Fails
  pub root : RootEnv
  pub reopen : Fails
  pub signal : Fails
  pub stat : String → Option Stat

abbrev pub halts : List InitCall → InitRun
halts calls = record { calls = calls; execve = none }

-- `if err != nil { return 1 }`, with the calls up to there.
abbrev pub or_halt : Fails → List InitCall → InitRun → InitRun
or_halt none before run = record run { calls = before ++ run.calls }
or_halt (some e) before run = halts before

abbrev hostname_calls : OciSpec → List InitCall
hostname_calls spec = if str_eq spec.hostname "" then [] else sets_hostname spec.hostname ∷ []

abbrev chdir_calls : OciProcess → List InitCall
chdir_calls p = if str_eq p.cwd "" then [] else goes_to p.cwd ∷ []

abbrev pub run_program : InitEnv → OciProcess → List String → InitRun
run_program env p [] = halts []
run_program env p (argv0 ∷ args) = record {
  calls = chdir_calls p;
  execve = some (record {
    program = resolve_in_root_path env.stat argv0 p.env;
    args = argv0 ∷ args;
    env = p.env;
  });
}

abbrev pub exec_user : InitEnv → OciSpec → InitRun
exec_user env spec = elim spec.process [ none ↦ halts [] | some p ↦ run_program env p p.args ]

-- From the open of the fifo on.
unfoldable pub after_join : InitEnv → OciSpec → String → String → String → InitRun
after_join env spec root id bundle =
    let setup = setup_rootfs env.root (rootfs_of bundle spec) spec in
    let fifo = path_join (root ∷ id ∷ "exec.fifo" ∷ []) in
    or_halt env.open_fifo (opens_fifo fifo ∷ []) (
      or_halt setup.err (hostname_calls spec ++ map sets_root setup.calls)
        (or_halt env.reopen (waits ∷ []) (or_halt env.signal (signals ∷ []) (exec_user env spec))))

abbrev pub join_then : JoinRun → InitRun → InitRun
join_then j run = elim j.err [
  | none ↦ record run { calls = map joins j.joined ++ run.calls }
  | some e ↦ halts (map joins j.joined)
]

unfoldable pub runc_init : InitEnv → String → String → String → InitRun
runc_init env root id bundle = elim env.spec [
  | none ↦ halts []
  | some spec ↦ join_then (join_namespaces env.join spec) (after_join env spec root id bundle)
]
