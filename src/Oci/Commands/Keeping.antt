-- ===== src/Oci/Commands/Keeping.antt =====
-- What no command of the runtime does to the state of the containers.
use asterkube.Prelude.{
  Bool, true, false, not, ◌&&◌, ◌||◌, List, [], ◌∷◌, Option, none, some, if◌then◌else◌, if_both,
  if_cases, Option-both, or_else, ◌≡◌, refl, sym, ap, subst, arith, String, inl, inr, ◌⊎◌,
}
use asterkube.Prelude.Text.{str_eq, eq_iff}
use asterkube.Oci.Containers.{
  ContainerState, Dir, Store, put, Env, Run, read_state, read_spec, last_arg, state_of, has_fifo,
}
use asterkube.Oci.Create.{
  CreateArgs, create_args, create_forked, create_container, cmd_create, start_container, cmd_start,
  created_state,
}
use asterkube.Oci.Controls.{
  cmd_state, cmd_kill, cmd_delete, cmd_ps, delete_args, kill_args, has_pid,
}
use asterkube.Oci.Exec.{ExecEnv}
use asterkube.Oci.Exec.Leaves.{cmd_exec-store}
use asterkube.Oci.Commands.{
  Parsed, version, help, out_of_range, subcommand, default_runtime_root, dispatch, after_globals,
  run_oci_runtime, CliRun, global_args,
}

-- A directory that is as the runtime leaves it: its state, if it has one, bears its own id and says
-- `created` or `running`.
abbrev pub IsSound : String → Option Dir → Type 0
IsSound id d =
    (st : ContainerState)
    → state_of d ≡ some st
    → (st.id ≡ id) × ((st.status ≡ "created") ⊎ (st.status ≡ "running"))

-- All of the directories are.
abbrev pub IsSoundStore : Store → Type 0
IsSoundStore s = (root id : String) → IsSound id (s root id)

-- A change of at most one directory, which leaves it sound.
abbrev pub KeepsRest : String → Store → Store → Type 0
KeepsRest root before after =
    (id : String) × ((r i : String)
      → (str_eq r root && str_eq i id) ≡ false
      → after r i ≡ before r i)
    × (IsSoundStore before → IsSoundStore after)

unchanged : (root : String) (s : Store) → KeepsRest root s s
unchanged root s = ("", (λ r i h. refl), λ h. h)

changed :
    (root id : String) (d : Option Dir) (s : Store)
    → (IsSoundStore s → IsSound id d)
    → KeepsRest root s (put root id d s)
changed root id d s sound = (
  id,
  (λ r i h. ground (arith, h)),
  λ h r i.
      if_cases (λ (e : Option Dir). IsSound i e) (str_eq r root && str_eq i id)
        (λ e. subst (λ j. IsSound j d) (sym ((eq_iff i id).0 (ground arith))) (sound h))
        (λ e. h r i),
)

-- Two changes of the same directory are one.
twice :
    (root id : String) (d e : Option Dir) (s : Store)
    → (IsSoundStore s → IsSound id e)
    → KeepsRest root s (put root id e (put root id d s))
twice root id d e s sound = (
  id,
  (λ r i h. ground (arith, h)),
  λ h r i.
      if_cases (λ (x : Option Dir). IsSound i x) (str_eq r root && str_eq i id)
        (λ e'. subst (λ j. IsSound j e) (sym ((eq_iff i id).0 (ground arith))) (sound h))
        (λ e'.
          if_cases (λ (x : Option Dir). IsSound i x) (str_eq r root && str_eq i id)
            (λ t. absurd (ground arith)) (λ t. h r i)),
)

-- A state that bears its id and one of the two statuses.
one_state :
    (id : String) (st : ContainerState) (fifo : Bool)
    → st.id ≡ id
    → (st.status ≡ "created") ⊎ (st.status ≡ "running")
    → IsSound id (some (record { state = some st; fifo = fifo }))
one_state id st fifo p q x e =
    subst (λ (y : ContainerState). (y.id ≡ id) × ((y.status ≡ "created") ⊎ (y.status ≡ "running")))
      (ap (λ o. or_else o st) e) (p, q)

-- The state is the old one, beside whatever fifo.
old_state :
    (root id : String) (s : Store) (fifo : Bool)
    → IsSoundStore s
    → IsSound id (some (record { state = read_state root id s; fifo = fifo }))
unfolding read_state
old_state root id s fifo h = h root id

module _ (env : Env) (root : String) (s : Store) where
  abbrev KeepsRestRun : Run → Type 0
  KeepsRestRun r = KeepsRest root s r.store

  kept_state :
      (id : String) (fifo : Bool)
      → KeepsRest root s
          (put root id (some (record { state = read_state root id s; fifo = fifo })) s)
  kept_state id fifo = changed root id _ s (old_state root id s fifo)

  create_container-KeepsRest : (c : CreateArgs) → KeepsRestRun (create_container env root c s)
  unfolding create_container create_forked created_state
  create_container-KeepsRest c = if_both KeepsRestRun (str_eq c.id "") (unchanged root s) (
      Option-both KeepsRestRun (read_spec env (if str_eq c.bundle "" then env.cwd else c.bundle))
        (λ e. unchanged root s)
        (λ spec e.
          Option-both KeepsRestRun env.mkdir
            (λ e.
              Option-both KeepsRestRun env.mkfifo
                (λ e.
                  Option-both KeepsRestRun env.fork (λ e. kept_state c.id true)
                    (λ pid e.
                      Option-both KeepsRestRun env.write_state
                        (λ e. twice root c.id _ _ s (λ h. one_state c.id _ true refl (inl refl)))
                        (λ n e. kept_state c.id true)))
                (λ n e. kept_state c.id false))
            (λ n e. unchanged root s)))

  start_container-KeepsRest :
      (id : String) (st : ContainerState)
      → read_state root id s ≡ some st
      → KeepsRestRun (start_container env root id st s)
  unfolding start_container read_state
  start_container-KeepsRest id st e =
      if_both KeepsRestRun (not (has_fifo (s root id))) (unchanged root s) (
        Option-both KeepsRestRun env.open_fifo
          (λ o.
            Option-both KeepsRestRun env.write_state
              (λ w. changed root id _ s (λ h. one_state id _ false (h root id st e).0 (inr refl)))
              (λ n w.
                changed root id _ s
                  (λ h. one_state id st false (h root id st e).0 (h root id st e).1)))
          (λ n o. unchanged root s))

  cmd_create-KeepsRest : (args : List String) → KeepsRestRun (cmd_create env root args s)
  unfolding cmd_create
  cmd_create-KeepsRest args =
      Option-both KeepsRestRun (create_args args (record { bundle = ""; pid_file = ""; id = "" }))
        (λ e. unchanged root s) (λ c e. create_container-KeepsRest c)

  cmd_start-KeepsRest : (args : List String) → KeepsRestRun (cmd_start env root args s)
  unfolding cmd_start
  cmd_start-KeepsRest args =
      Option-both KeepsRestRun (read_state root (last_arg args) s) (λ e. unchanged root s)
        (λ st e. start_container-KeepsRest (last_arg args) st e)

  cmd_state-KeepsRest : (args : List String) → KeepsRestRun (cmd_state env root args s)
  unfolding cmd_state
  cmd_state-KeepsRest args =
      Option-both KeepsRestRun (read_state root (last_arg args) s) (λ e. unchanged root s)
        (λ st e. unchanged root s)

  cmd_kill-KeepsRest : (args : List String) → KeepsRestRun (cmd_kill env root args s)
  unfolding cmd_kill
  cmd_kill-KeepsRest args =
      Option-both KeepsRestRun
        (read_state root (kill_args args (record { id = ""; sig = "" })).id s)
        (λ e. unchanged root s)
        (λ st e. if_both KeepsRestRun (has_pid st) (unchanged root s) (unchanged root s))

  cmd_delete-KeepsRest : (args : List String) → KeepsRestRun (cmd_delete env root args s)
  unfolding cmd_delete
  cmd_delete-KeepsRest args =
      Option-both KeepsRestRun
        (read_state root (delete_args args (record { id = ""; force = false })).id s)
        (λ e. unchanged root s)
        (λ st e.
          Option-both KeepsRestRun env.remove_all
            (λ e. changed root _ none s (λ h x p. absurd (ground arith))) (λ n e. unchanged root s))

module _ (env : Env) (x : ExecEnv) (s : Store) where
  dispatch-KeepsRest :
      (root cmd : String) (rest : List String)
      → KeepsRest root s (dispatch env x root cmd rest s).store
  unfolding dispatch cmd_ps
  dispatch-KeepsRest root cmd rest =
      let none_changed = unchanged root s in
      if_both P (str_eq cmd "--version" || str_eq cmd "version") none_changed (
        if_both P (str_eq cmd "features") none_changed (
          if_both P (str_eq cmd "create") (cmd_create-KeepsRest env root s rest) (
            if_both P (str_eq cmd "start") (cmd_start-KeepsRest env root s rest) (
              if_both P (str_eq cmd "state") (cmd_state-KeepsRest env root s rest) (
                if_both P (str_eq cmd "kill") (cmd_kill-KeepsRest env root s rest) (
                  if_both P (str_eq cmd "delete") (cmd_delete-KeepsRest env root s rest) (
                    if_both P (str_eq cmd "exec")
                      (subst (KeepsRest root s) (sym (cmd_exec-store env x root rest s))
                        none_changed)
                      (if_both P (str_eq cmd "ps") none_changed (
                        if_both P
                          (str_eq cmd "update"
                            || (str_eq cmd "pause" || (str_eq cmd "resume" || str_eq cmd "events")))
                          none_changed none_changed)))))))))
    where
      P : CliRun → Type 0
      P r = KeepsRest root s r.store

  after_globals-KeepsRest :
      (p : Parsed) → (root : String) × KeepsRest root s (after_globals env x s p).store
  after_globals-KeepsRest version = ("", unchanged "" s)
  after_globals-KeepsRest help = ("", unchanged "" s)
  after_globals-KeepsRest out_of_range = ("", unchanged "" s)
  after_globals-KeepsRest (subcommand g []) = ("", unchanged "" s)
  after_globals-KeepsRest (subcommand g (cmd ∷ rest)) = (g.root, dispatch-KeepsRest g.root cmd rest)

-- Whatever the arguments, and whatever fails, a run of the runtime changes the directory of one
-- container at most, and leaves every directory sound if they were: a state bears its container's id,
-- and says `created` or `running`.
pub run_oci_runtime-KeepsRest :
    (env : Env) (x : ExecEnv) (args : List String) (s : Store)
    → (root : String) × KeepsRest root s (run_oci_runtime env x args s).store
unfolding run_oci_runtime
run_oci_runtime-KeepsRest env x args s =
    after_globals-KeepsRest env x s
      (global_args args (record { root = default_runtime_root; log = "" }))
