-- ===== src/Oci/Controls.antt =====
-- The commands state, kill, delete and ps of cmd/asterkube-init/ociruntime_linux.go.
use asterkube.Prelude.{
  ℕ, Bool, true, false, not, ◌&&◌, ◌||◌, List, [], ◌∷◌, ◌++◌, Option, none, some, if◌then◌else◌,
  String, ◌==◌, ltb,
}
use asterkube.Prelude.Text.{str_eq, has_prefix}
use asterkube.Oci.Signals.{parse_signal}
use asterkube.Oci.Containers.{
  ContainerState, Store, put, Env, Fails, Call, kills, removes, prints_state, prints_pid, not_found,
  system, Ending, done, failed, Run, stops, last_arg, contains_arg, read_state,
}

-- A process that can be signalled: its number is positive.
abbrev pub has_pid : ContainerState → Bool
has_pid st = ltb 0 st.init_pid

-- What `state` reports: a container whose init is gone is stopped, whatever the file says.
unfoldable pub reported_status : Env → ContainerState → String
reported_status env st =
    if has_pid st && not (env.pid_alive st.init_pid) then "stopped" else st.status

-- The variables of kill and delete.
pub record KillArgs : Type 0 where
  pub id : String
  pub sig : String

unfoldable pub kill_args : List String → KillArgs → KillArgs
kill_args [] k = k
kill_args (a ∷ args) k = kill_args args (
    if has_prefix a "-"
    then k
    else if str_eq k.id ""
    then record k { id = a }
    else record k { sig = a })

pub record DeleteArgs : Type 0 where
  pub id : String
  pub force : Bool

unfoldable pub delete_args : List String → DeleteArgs → DeleteArgs
delete_args [] d = d
delete_args (a ∷ args) d = delete_args args (
    if str_eq a "--force" || str_eq a "-f"
    then record d { force = true }
    else if has_prefix a "-"
    then d
    else record d { id = a })

abbrev esrch : ℕ
esrch = 3

-- An error of kill(2) counts unless the process is gone.
abbrev kill_ending : Fails → Ending
kill_ending none = done
kill_ending (some e) = if e == esrch then done else failed (system e)

module _ (env : Env) (root : String) where
  unfoldable pub cmd_state : List String → Store → Run
  cmd_state args s = elim (read_state root (last_arg args) s) [
    | none ↦ stops s not_found
    | some st ↦ record {
      store = s;
      calls = prints_state (record { state = st; status = reported_status env st }) ∷ [];
      ending = done;
    }
  ]

  unfoldable pub cmd_kill : List String → Store → Run
  cmd_kill args s =
      let k = kill_args args (record { id = ""; sig = "" }) in
      elim (read_state root k.id s) [
        | none ↦ stops s not_found
        | some st ↦
            if has_pid st
            then record {
              store = s;
              calls = kills st.init_pid (parse_signal k.sig) ∷ [];
              ending = kill_ending env.kill;
            }
            else record { store = s; calls = []; ending = done }
      ]

  abbrev forced_kill : Bool → ContainerState → List Call
  forced_kill force st =
      if force && (has_pid st && env.pid_alive st.init_pid)
      then kills st.init_pid (parse_signal "KILL") ∷ []
      else []

  abbrev cgroup_removal : ContainerState → List Call
  cgroup_removal st = if str_eq st.cgroup_path "" then [] else removes st.cgroup_path ∷ []

  -- The directory goes, unless `os.RemoveAll` fails, which is taken to leave it.
  unfoldable pub cmd_delete : List String → Store → Run
  cmd_delete args s =
      let d = delete_args args (record { id = ""; force = false }) in
      elim (read_state root d.id s) [
        | none ↦ record { store = s; calls = []; ending = done }
        | some st ↦
            let calls = forced_kill d.force st ++ cgroup_removal st in
            elim env.remove_all [
              | none ↦ record { store = put root d.id none s; calls = calls; ending = done }
              | some e ↦ record { store = s; calls = calls; ending = failed (system e) }
            ]
      ]

  abbrev shown_pid : List String → Option ContainerState → List Call
  shown_pid args none = []
  shown_pid args (some st) =
      prints_pid (contains_arg args "--format" && contains_arg args "json") st.init_pid ∷ []

  unfoldable pub cmd_ps : List String → Store → Run
  cmd_ps args s = record {
    store = s;
    calls = shown_pid args (read_state root (last_arg args) s);
    ending = done;
  }
