-- ===== src/Join/Persist.antt =====
-- The node that stays up: keepAlive, nodeIsLive, serveForever and gracefulShutdown of
-- cmd/asterkube-init/persist_linux.go.
pub mod Stopping
use asterkube.Prelude.{
  ℕ, Bool, true, false, not, ◌||◌, List, [], ◌∷◌, ◌++◌, Option, none, some, ◌≡◌, refl, arith,
  if◌then◌else◌, map,
}
use asterkube.Prelude.Prog.{Prog, ret, ask, bind, run, ◌>>=◌, ◌>>◌}
use asterkube.Join.{
  JoinCall, JoinAnswer, JoinProg, JoinHistory, JoinSystem, terminates, kills, sleeps, syncs,
  powers_off,
}
use asterkube.Join.Kubelet.{Cmd, has_exited}

-- liveProcs and clusterJoined.
pub record Node : Type 0 where
  pub live_procs : List Cmd
  pub cluster_joined : Bool

-- A command that was started; one that was not has no process and is not kept.
unfoldable pub keep_alive : Cmd → Node → Node
keep_alive c n = record n { live_procs = n.live_procs ++ (c ∷ []) }

abbrev pub any_runs : List Cmd → Bool
any_runs [] = false
any_runs (c ∷ cs) = not (has_exited c) || any_runs cs

unfoldable pub node_is_live : Node → Bool
node_is_live n = any_runs n.live_procs

abbrev pub each : (ℕ → JoinCall) → List Cmd → JoinProg (Unit {0})
each f [] = ret tt
each f (c ∷ cs) = ask (f c.pid) >> each f cs

-- sync(2) is called once more by powerOff.
unfoldable pub power_off : JoinProg (Unit {0})
power_off = ask syncs >> ask powers_off >> ret tt

unfoldable pub graceful_shutdown : Node → JoinProg (Unit {0})
graceful_shutdown n = do
  _ ← each terminates n.live_procs
  _ ← ask (sleeps 3000)
  _ ← each kills n.live_procs
  _ ← ask syncs
  power_off
