-- ===== src/Oci/Create.antt =====
-- The commands create and start of cmd/asterkube-init/ociruntime_linux.go.
use asterkube.Prelude.{
  ℕ, Bool, true, false, not, ◌||◌, List, [], ◌∷◌, ◌++◌, Option, none, some, if◌then◌else◌, String,
  map,
}
use asterkube.Prelude.Int.{pos}
use asterkube.Prelude.Text.{str_eq, has_prefix, cut_prefix}
use asterkube.Oci.Paths.{path_join}
use asterkube.Oci.Spec.{OciSpec, clone_flags_for}
use asterkube.Oci.Cgroup.{number, apply_cgroup}
use asterkube.Oci.Containers.{
  ContainerState, Store, put, Env, Call, start_process, writes_file, removes, no_container_id,
  no_spec, not_found, no_process, system, Ending, done, failed, panicked, Run, stops, ending_of,
  or_default, last_arg, read_state, has_fifo, read_spec, rootfs_of,
}

-- The variables that the arguments of create set.
pub record CreateArgs : Type 0 where
  pub bundle : String
  pub pid_file : String
  pub id : String

-- An argument without a value of its own.
unfoldable pub create_arg : String → CreateArgs → CreateArgs
create_arg a c =
    if has_prefix a "--bundle="
    then record c { bundle = cut_prefix a "--bundle=" }
    else if has_prefix a "--pid-file="
    then record c { pid_file = cut_prefix a "--pid-file=" }
    else if has_prefix a "-"
    then c
    else record c { id = a }

abbrev is_bundle_flag : String → Bool
is_bundle_flag a = str_eq a "--bundle" || str_eq a "-b"

abbrev skips_value : String → Bool
skips_value a = str_eq a "--console-socket" || str_eq a "--preserve-fds"

-- The loop of cmdCreate; `none` where it reads behind the arguments.
unfoldable pub create_args : List String → CreateArgs → Option CreateArgs
create_args [] c = some c
create_args (a ∷ []) c =
    if is_bundle_flag a || str_eq a "--pid-file"
    then none
    else if skips_value a
    then some c
    else some (create_arg a c)
create_args (a ∷ v ∷ rest) c =
    let bundled = create_args rest (record c { bundle = v }) in
    let pid_filed = create_args rest (record c { pid_file = v }) in
    let skipped = create_args rest c in
    let next = create_args (v ∷ rest) (create_arg a c) in
    if is_bundle_flag a
    then bundled
    else if str_eq a "--pid-file"
    then pid_filed
    else if skips_value a
    then skipped
    else next

module _ (env : Env) (root : String) where
  -- The state that create writes.
  unfoldable pub created_state : String → String → OciSpec → ℕ → ContainerState
  created_state id bundle spec pid = record {
    oci_version = or_default spec.oci_version "1.2.0";
    id = id;
    init_pid = pid;
    status = "created";
    bundle = bundle;
    rootfs = rootfs_of bundle spec;
    created = env.now;
    cgroup_path = (apply_cgroup env.cgroup_mkdir spec id pid).path;
  }

  abbrev pid_file_write : String → ℕ → List Call
  pid_file_write file pid =
      if str_eq file ""
      then []
      else writes_file (record { file = file; content = number (pos pid) }) ∷ []

  abbrev pid_file_ending : String → Ending
  pid_file_ending file = if str_eq file "" then done else ending_of env.write_pid_file

  -- From the fork on.
  unfoldable pub create_forked : CreateArgs → String → OciSpec → Store → Run
  create_forked c bundle spec s = elim env.fork [
    | none ↦ stops s no_process
    | some pid ↦
        let calls =
          start_process (clone_flags_for spec) ("runc" ∷ "__runc_init" ∷ root ∷ c.id ∷ bundle ∷ [])
          ∷ map writes_file (apply_cgroup env.cgroup_mkdir spec c.id pid).writes in
        elim env.write_state [
          | some e ↦ record { store = s; calls = calls; ending = failed (system e) }
          | none ↦ record {
            store =
                put root c.id
                  (some (record { state = some (created_state c.id bundle spec pid); fifo = true }))
                  s;
            calls = calls ++ pid_file_write c.pid_file pid;
            ending = pid_file_ending c.pid_file;
          }
        ]
  ]

  -- The directory is made, and an old fifo removed, before the new one is made.
  unfoldable pub create_container : CreateArgs → Store → Run
  create_container c s =
      let bundle = if str_eq c.bundle "" then env.cwd else c.bundle in
      let old = read_state root c.id s in
      if str_eq c.id "" then stops s no_container_id else elim (read_spec env bundle) [
        | none ↦ stops s no_spec
        | some spec ↦ elim env.mkdir [
          | some e ↦ stops s (system e)
          | none ↦ elim env.mkfifo [
            | some e ↦
                stops (put root c.id (some (record { state = old; fifo = false })) s) (system e)
            | none ↦
                create_forked c bundle spec
                  (put root c.id (some (record { state = old; fifo = true })) s)
          ]
        ]
      ]

  unfoldable pub cmd_create : List String → Store → Run
  cmd_create args s = elim (create_args args (record { bundle = ""; pid_file = ""; id = "" })) [
    | none ↦ record { store = s; calls = []; ending = panicked }
    | some c ↦ create_container c s
  ]

  -- The open of the fifo waits for the container's init, and is taken to find it waiting.
  unfoldable pub start_container : String → ContainerState → Store → Run
  start_container id st s =
      let file = path_join (root ∷ id ∷ "exec.fifo" ∷ []) in
      if not (has_fifo (s root id)) then stops s not_found else elim env.open_fifo [
        | some e ↦ stops s (system e)
        | none ↦ elim env.write_state [
          | some e ↦ record {
            store = put root id (some (record { state = some st; fifo = false })) s;
            calls = removes file ∷ [];
            ending = failed (system e);
          }
          | none ↦ record {
            store =
                put root id
                  (some (record { state = some (record st { status = "running" }); fifo = false }))
                  s;
            calls = removes file ∷ [];
            ending = done;
          }
        ]
      ]

  unfoldable pub cmd_start : List String → Store → Run
  cmd_start args s =
      let id = last_arg args in
      elim (read_state root id s) [ none ↦ stops s not_found | some st ↦ start_container id st s ]
