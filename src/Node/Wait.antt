-- ===== src/Node/Wait.antt =====
-- The wait for a pod: waitPod of cmd/asterkube-init/node.go.
use asterkube.Prelude.{
  ℕ, ◌+◌, ◌≤◌, min, ◌≡◌, refl, arith, if◌then◌else◌, if_cases, [], ◌∷◌, true, false, ◌⊎◌, inl, inr,
}
use asterkube.Prelude.Prog.{ret, ask, run, Ensures, Ensures-run, ◌>>=◌, ◌>>◌}
use asterkube.Node.{
  PodSpec, bridged, removes, waits, kills, NodeProg, NodeHistory, Kernel, Answer, refused, exists,
  done, number, is_refused,
}
use asterkube.Node.Start.{cgroup_of}

-- Milliseconds.
unfoldable pub watchdog : PodSpec → ℕ
unfolding bridged
watchdog spec = if bridged spec then 60000 else 15000

abbrev pub kill_wait : ℕ
kill_wait = 2000

unfoldable pub kill_pod : PodSpec → ℕ → NodeProg (Unit {0})
kill_pod spec pid = do
  _ ← ask (kills pid)
  _ ← ask (waits kill_wait)
  _ ← ask (removes (cgroup_of spec))
  ret tt

-- The process is killed when the watchdog's time is over, and is then waited for once more; the removal of the cgroup
-- is asked for whatever came of it.
unfoldable pub wait_pod : PodSpec → ℕ → NodeProg (Unit {0})
unfolding kill_pod
wait_pod spec pid = ask (waits (watchdog spec)) >>= λ r.
    if is_refused r then kill_pod spec pid else ask (removes (cgroup_of spec)) >> ret tt

-- The time of a wait of w milliseconds, where the answer `number t` comes after t milliseconds.
abbrev taken : ℕ → Answer → ℕ
taken w (number t) = min t w
taken w _ = w

-- The time that the waits of a history took.
abbrev pub spent : NodeHistory → ℕ
spent [] = 0
spent ((waits w, r) ∷ h) = taken w r + spent h
spent (x ∷ h) = spent h

taken_at_most : (w : ℕ) (r : Answer) → taken w r ≤ w
taken_at_most w (number t) = omega arith
taken_at_most w refused = omega arith
taken_at_most w exists = omega arith
taken_at_most w done = omega arith

-- A wait in time, and the removal of the cgroup.
abbrev pub EndsInTime : PodSpec → NodeHistory → NodeHistory → Type 0
EndsInTime spec h g =
    (r : Answer) × (q : Answer) × (is_refused r ≡ false)
    × (g ≡ (removes (cgroup_of spec), q) ∷ (waits (watchdog spec), r) ∷ h)

-- A wait whose time is over, the kill of the process, the wait for it, and the removal of the cgroup.
abbrev pub EndsKilled : PodSpec → ℕ → NodeHistory → NodeHistory → Type 0
EndsKilled spec pid h g =
    (r : Answer) × (k : Answer) × (b : Answer) × (q : Answer) × (is_refused r ≡ true)
    × (g
        ≡ (removes (cgroup_of spec), q)
          ∷ (waits kill_wait, b)
          ∷ (kills pid, k)
          ∷ (waits (watchdog spec), r)
          ∷ h)

abbrev Bounded : PodSpec → ℕ → NodeHistory → NodeHistory → Type 0
Bounded spec pid h g =
    (spent g ≤ spent h + watchdog spec + kill_wait)
    × (EndsInTime spec h g ⊎ EndsKilled spec pid h g)

wait_pod-Ensures :
    (spec : PodSpec) (pid : ℕ) (h : NodeHistory)
    → Ensures (λ u g. Bounded spec pid h g) (wait_pod spec pid) h
unfolding wait_pod kill_pod
wait_pod-Ensures spec pid h = λ r.
    let first = taken_at_most (watchdog spec) r in
    if_cases
      (λ (p : NodeProg (Unit {0})).
        Ensures (λ u g. Bounded spec pid h g) p ((waits (watchdog spec), r) ∷ h))
      (is_refused r)
      (λ e a b c.
        let second = taken_at_most kill_wait b in
        (omega (arith, first, second), inr (r, a, b, c, e, refl)))
      (λ e a. (omega (arith, first), inl (r, a, e, refl)))

-- Whatever the process does, the wait for a pod is over 2 seconds after its watchdog at the latest: either the process
-- ended in time, or it was killed and waited for once more; and after either one the removal of its cgroup is asked
-- for, whose answer is not looked at.
pub wait_pod-Bounded :
    (kernel : Kernel) (spec : PodSpec) (pid : ℕ) (h : NodeHistory)
    → let after = (run kernel (wait_pod spec pid) h).1 in
      (spent after ≤ spent h + watchdog spec + kill_wait)
      × (EndsInTime spec h after ⊎ EndsKilled spec pid h after)
wait_pod-Bounded kernel spec pid h =
    Ensures-run (λ u g. Bounded spec pid h g) kernel (wait_pod spec pid) h
      (wait_pod-Ensures spec pid h)
