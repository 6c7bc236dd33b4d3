-- ===== src/Entry/Booting.antt =====
-- The end of the boot: a node that has joined stays up with its processes.
use asterkube.Prelude.{Bool, true, false, [], ◌∷◌, ◌++◌, Option, none, some, ◌≡◌, ◌≢◌, ◌⊎◌, String}
use asterkube.Prelude.Prog.{run}
use asterkube.Join.{JoinHistory, JoinSystem, boot_args_configured}
use asterkube.Join.Bundle.{find_join_bundle}
use asterkube.Join.Kubelet.{registered}
use asterkube.Join.Kubelet.Leaving.{is_left}
use asterkube.Join.Paths.{Boot, Outcome, tried}
use asterkube.Join.Paths.Living.{Settled}
use asterkube.Join.Persist.{Node}
use asterkube.Entry.{try_join, joined_node, stays_up}

module _ (b : Boot) (n : Node) where
  -- A node whose kubelet has registered has joined and stays up, with containerd and that kubelet running behind the
  -- processes that it had; any other is as before, and stays up if it was live or is to persist.
  abbrev pub Boots : Option Outcome → Node × Bool → JoinHistory → Type 0
  Boots (some (tried (registered cd k))) r g =
      (r.0.cluster_joined ≡ true)
      × (r.1 ≡ true)
      × (r.0.live_procs ≡ n.live_procs ++ (cd ∷ []) ++ (k ∷ []))
      × (is_left cd.pid g ≡ true)
      × (is_left k.pid g ≡ true)
  Boots _ r g = (r.0 ≡ n) × (r.1 ≡ stays_up b n)

  abbrev Answers : Option Outcome → Node × Bool
  Answers o = (joined_node o n, stays_up b (joined_node o n))

  -- A join is tried exactly if there is a bundle, or the command line tells of a cluster.
  abbrev pub HasTried : Option String → Option Outcome → Type 0
  HasTried dir none = (dir ≡ none) × (boot_args_configured b.env ≡ false)
  HasTried dir (some o) = (dir ≢ none) ⊎ (boot_args_configured b.env ≡ true)

  abbrev SettledTry : Option Outcome → JoinHistory → Type 0
  SettledTry none g = Unit
  SettledTry (some o) g = Settled o g

  abbrev TriesFrom : Option String → Option Outcome → JoinHistory → Type 0
  TriesFrom dir o g = HasTried dir o × SettledTry o g

-- The search for a bundle and the join that it leads to.
abbrev pub join_tried : JoinSystem → Boot → JoinHistory → Option Outcome × JoinHistory
join_tried sys b h = let found = run sys find_join_bundle h in run sys (try_join b found.0) found.1
