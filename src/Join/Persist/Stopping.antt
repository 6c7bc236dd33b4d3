-- ===== src/Join/Persist/Stopping.antt =====
-- The shutdown of a node stops its processes before it powers off.
use asterkube.Prelude.{ℕ, Bool, true, false, not, ◌||◌, ◌==◌, List, [], ◌∷◌, ◌≡◌, refl, arith}
use asterkube.Prelude.Prog.{run, Ensures, Ensures-run, Ensures-bind}
use asterkube.Join.{JoinHistory, JoinSystem, terminates, kills, powers_off}
use asterkube.Join.Kubelet.{Cmd}
use asterkube.Join.Kubelet.Leaving.{is_left}
use asterkube.Join.Persist.{Node, each, power_off, graceful_shutdown}

-- Whether a process is among those that the node keeps.
abbrev pub is_kept : ℕ → List Cmd → Bool
is_kept pid [] = false
is_kept pid (c ∷ cs) = c.pid == pid || is_kept pid cs

-- Whether a process was sent SIGTERM.
abbrev pub was_asked : ℕ → JoinHistory → Bool
was_asked pid [] = false
was_asked pid ((terminates p, r) ∷ h) = p == pid || was_asked pid h
was_asked pid (x ∷ h) = was_asked pid h

abbrev pub LastPowersOff : JoinHistory → Type 0
LastPowersOff [] = ⊥
LastPowersOff ((c, r) ∷ h) = c ≡ powers_off

module _ (pid : ℕ) where
  each-terminates :
      (cs : List Cmd) (h : JoinHistory)
      → (is_kept pid cs || was_asked pid h) ≡ true
      → Ensures (λ u g. was_asked pid g ≡ true) (each terminates cs) h
  each-terminates [] h e = e
  each-terminates (c ∷ cs) h e = λ r. each-terminates cs _ (ground (arith, e))

  each-kills :
      (cs : List Cmd) (h : JoinHistory)
      → was_asked pid h ≡ true
      → (is_kept pid cs || not (is_left pid h)) ≡ true
      → Ensures (λ u g. (was_asked pid g ≡ true) × (is_left pid g ≡ false)) (each kills cs) h
  each-kills [] h a e = (a, ground (arith, e))
  each-kills (c ∷ cs) h a e = λ r. each-kills cs _ a (ground (arith, e))

  abbrev pub Stopped : Unit {0} → JoinHistory → Type 0
  Stopped u g = (was_asked pid g ≡ true) × (is_left pid g ≡ false) × LastPowersOff g

  graceful_shutdown-Ensures :
      (n : Node) (h : JoinHistory)
      → is_kept pid n.live_procs ≡ true
      → Ensures Stopped (graceful_shutdown n) h
  unfolding graceful_shutdown power_off
  graceful_shutdown-Ensures n h k =
      Ensures-bind (λ u g. was_asked pid g ≡ true) Stopped (each terminates n.live_procs) _ h
        (each-terminates n.live_procs h (ground (arith, k)))
        (λ u g a r.
          Ensures-bind (λ u g. (was_asked pid g ≡ true) × (is_left pid g ≡ false)) Stopped
            (each kills n.live_procs) _ _ (each-kills n.live_procs _ a (ground (arith, k)))
            (λ u g s r q p. (s.0, s.1, refl)))

-- Each process that the node keeps was asked to stop and is not left when the machine is powered off, which is the last
-- thing that is done.
pub graceful_shutdown-Stopped :
    (sys : JoinSystem) (n : Node) (pid : ℕ) (h : JoinHistory)
    → is_kept pid n.live_procs ≡ true
    → Stopped pid tt (run sys (graceful_shutdown n) h).1
graceful_shutdown-Stopped sys n pid h k =
    Ensures-run (Stopped pid) sys (graceful_shutdown n) h (graceful_shutdown-Ensures pid n h k)
