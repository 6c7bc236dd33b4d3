-- ===== src/Oci/Exec/Leaves.antt =====
-- What exec leaves alone.
use asterkube.Prelude.{not, ◌&&◌, ◌||◌, List, [], ◌∷◌, if_both, Option-both, ◌≡◌, refl, String}
use asterkube.Prelude.Text.{str_eq}
use asterkube.Oci.Programs.{resolve_in_rootfs}
use asterkube.Oci.Containers.{ContainerState, Started, Store, Env, Run, read_state, Call}
use asterkube.Oci.Controls.{has_pid}
use asterkube.Oci.Exec.{
  ExecEnv, ExecArgs, ExecProcess, exec_started, exec_program, exec_command, exec_container,
  exec_in_store, exec_args, cmd_exec, no_args,
}

-- What runs in a container leaves the store alone.
module _ (x : ExecEnv) (a : ExecArgs) (s : Store) where
  abbrev Leaves : Run → Type 0
  Leaves r = r.store ≡ s

  exec_started-store :
      (before : List Call) (start : Started) → Leaves (exec_started x a s before start)
  unfolding exec_started
  exec_started-store before start =
      Option-both Leaves x.start (λ e. refl) (λ pid e. if_both Leaves start.own_terminal refl refl)

  exec_program-store :
      (st : ContainerState) (p : ExecProcess) (program : String)
      → Leaves (exec_program x a s st p program)
  unfolding exec_program
  exec_program-store st p program =
      if_both Leaves ((p.terminal || a.tty) && not (str_eq a.console_socket ""))
        (Option-both Leaves x.openpty (λ e. refl)
          (λ slave e. Option-both Leaves x.open_slave (λ e. exec_started-store _ _) (λ n e. refl)))
        (exec_started-store _ _)

  exec_command-store :
      (st : ContainerState) (p : ExecProcess) (args : List String)
      → Leaves (exec_command x a s st p args)
  exec_command-store st p [] = refl
  exec_command-store st p (cmd ∷ args) =
      Option-both Leaves (resolve_in_rootfs x.stat st.rootfs cmd p.env) (λ e. refl)
        (λ program e. exec_program-store st p program)

  exec_container-store : (env : Env) (st : ContainerState) → Leaves (exec_container x a s env st)
  unfolding exec_container
  exec_container-store env st =
      if_both Leaves (not (has_pid st) || not (env.pid_alive st.init_pid)) refl (
        if_both Leaves (str_eq a.process_path "") refl (
          Option-both Leaves (x.process a.process_path) (λ e. refl)
            (λ p e. exec_command-store st p p.args)))

  exec_in_store-store : (env : Env) (root : String) → Leaves (exec_in_store x a s env root)
  unfolding exec_in_store
  exec_in_store-store env root = if_both Leaves (str_eq a.id "") refl (
      Option-both Leaves (read_state root a.id s) (λ e. refl) (λ st e. exec_container-store env st))

-- Whatever its arguments, exec leaves the store as it is.
pub cmd_exec-store :
    (env : Env) (x : ExecEnv) (root : String) (args : List String) (s : Store)
    → (cmd_exec env x root args s).store ≡ s
unfolding cmd_exec
cmd_exec-store env x root args s =
    Option-both (λ (r : Run). r.store ≡ s) (exec_args args no_args) (λ e. refl)
      (λ a e. exec_in_store-store x a s env root)
