-- ===== src/Join/Kubelet.antt =====
-- containerd and the kubelet of a joining node: startStaticContainerd of boot_args_join_linux.go, and what
-- joinFromBundle of join_bundle_linux.go and bootArgsJoin share from there on.
pub mod Watching
pub mod Leaving
use asterkube.Prelude.{
  ℕ, zero, suc, ◌-◌, ◌+◌, ltb, Bool, true, false, not, ◌&&◌, ◌||◌, List, [], ◌∷◌, ◌++◌, Option,
  none, some, String, if◌then◌else◌,
}
use asterkube.Prelude.Text.{str_eq, str_append, contains_text}
use asterkube.Prelude.Prog.{Prog, ret, ask, bind, ◌>>=◌, ◌>>◌}
use asterkube.Join.{
  JoinCall, JoinAnswer, JoinProg, stats, makes_dir, creates_file, starts, kills, sleeps, tells_time,
  is_failed, failed, fine, text, number, names, exists, read_file_string,
}

-- exec.Cmd of a process that was started: its state is known only after Wait, which is the only one to set it.
pub record Cmd : Type 0 where
  pub pid : ℕ
  pub process_state : Option Bool

abbrev pub started_cmd : ℕ → Cmd
started_cmd pid = record { pid = pid; process_state = none }

-- `c.ProcessState != nil && c.ProcessState.Exited()`
abbrev pub has_exited : Cmd → Bool
has_exited c = elim c.process_state [ none ↦ false | some exited ↦ exited ]

abbrev pub started_of : JoinAnswer → Option Cmd
started_of (number pid) = some (started_cmd pid)
started_of _ = none

unfoldable pub start_cmd : String → List String → JoinProg (Option Cmd)
start_cmd program args = ask (starts program args) >>= λ r. ret (started_of r)

-- The wait for the socket, in so many tries with a pause of 100 ms behind each.
unfoldable pub await_socket : ℕ → String → JoinProg Bool
unfolding exists
await_socket zero sock = ret false
await_socket (suc tries) sock =
    exists sock >>= λ b. if b then ret true else ask (sleeps 100) >> await_socket tries sock

abbrev pub serve_or_kill : Cmd → Bool → JoinProg (Option Cmd)
serve_or_kill cd true = ret (some cd)
serve_or_kill cd false = ask (kills cd.pid) >> ret none

abbrev pub await_containerd : String → Option Cmd → JoinProg (Option Cmd)
await_containerd sock none = ret none
await_containerd sock (some cd) = await_socket 100 sock >>= λ b. serve_or_kill cd b

unfoldable pub start_static_containerd : String → String → String → String → JoinProg (Option Cmd)
start_static_containerd root state sock log_path = do
  _ ← ask (makes_dir root)
  _ ← ask (makes_dir state)
  r ← ask (creates_file log_path)
  if is_failed r
      then ret none
      else start_cmd "/usr/bin/containerd"
          ("--root" ∷ root ∷ "--state" ∷ state ∷ "--address" ∷ sock ∷ "--log-level" ∷ "info" ∷ [])
        >>= λ cd. await_containerd sock cd

abbrev pub says_registered : String → Bool
says_registered log =
    contains_text log "Successfully registered node"
    || contains_text log "Successfully registered Node"

abbrev pub time_of : JoinAnswer → ℕ
time_of (number t) = t
time_of _ = 0

-- The log is looked at every 3 seconds until the deadline; `none` where the fuel is gone.
unfoldable pub watch_registration : ℕ → ℕ → Cmd → String → JoinProg (Option Bool)
unfolding read_file_string
watch_registration zero deadline k log_path = ret none
watch_registration (suc fuel) deadline k log_path = ask tells_time >>= λ now.
    if not (ltb (time_of now) deadline)
    then ret (some false)
    else if has_exited k
    then ret (some false)
    else read_file_string log_path >>= λ log.
        if says_registered log
        then ret (some true)
        else ask (sleeps 3000) >> watch_registration fuel deadline k log_path

-- Rounds of the watch: 75 s in pauses of 3 s, and the look that finds the time over.
abbrev pub watch_fuel : ℕ
watch_fuel = 26

-- How a join ends; the init goes on in every case.
pub data Joined : Type 0 where
  no_containerd : Joined
  no_log : Cmd → Joined
  no_kubelet : Cmd → Joined
  unregistered : Joined
  registered : Cmd → Cmd → Joined

abbrev pub settle : Cmd → Cmd → Option Bool → JoinProg Joined
settle cd k (some true) = ret (registered cd k)
settle cd k _ = ask (kills k.pid) >> ask (kills cd.pid) >> ret unregistered

abbrev pub watch_kubelet : Cmd → String → Option Cmd → JoinProg Joined
watch_kubelet cd log_path none = ret (no_kubelet cd)
watch_kubelet cd log_path (some k) = do
  now ← ask tells_time
  seen ← watch_registration watch_fuel (time_of now + 75000) k log_path
  settle cd k seen

-- From the kubelet on.
unfoldable pub join_with : List String → String → Cmd → JoinProg Joined
join_with args log_path cd = ask (creates_file log_path) >>= λ r.
    if is_failed r
    then ret (no_log cd)
    else start_cmd "/usr/bin/kubelet" args >>= λ k. watch_kubelet cd log_path k
