-- ===== src/Node/Start/Ends.antt =====
-- The pipe ends that the start of a container leaves open.
use asterkube.Prelude.{
  Bool, true, false, ◌&&◌, ◌||◌, not, List, [], ◌∷◌, Option, none, some, String, ◌≡◌, refl, if_both,
  if_cases,
}
use asterkube.Prelude.{arith}
use asterkube.Prelude.Decimal.{is_positive}
use asterkube.Prelude.Prog.{Ensures, Ensures-run, Ensures-bind, run}
use asterkube.Node.{
  PodSpec, PodNetwork, Pipe, sync, ready, created, End, reads, writes, makes_pipe, closes, refused,
  exists, done, number, NodeProg, NodeHistory, Kernel, is_refused,
}
use asterkube.Node.Start.{
  PodStart, write_quota, gave_up, panicked, running, write_limits, launch, launch_wired,
  launch_with, launch_for, start_pod_container, start_in_cgroup, not_started,
}

abbrev pipe_eq : Pipe → Pipe → Bool
pipe_eq sync sync = true
pipe_eq ready ready = true
pipe_eq created created = true
pipe_eq _ _ = false

abbrev end_eq : End → End → Bool
end_eq (reads p) (reads q) = pipe_eq p q
end_eq (writes p) (writes q) = pipe_eq p q
end_eq _ _ = false

abbrev belongs : End → Pipe → Bool
belongs (reads p) q = pipe_eq p q
belongs (writes p) q = pipe_eq p q

-- Whether the agent holds an end after the calls of a history.
abbrev pub is_open : End → NodeHistory → Bool
is_open e [] = false
is_open e ((makes_pipe p, r) ∷ h) = (not (is_refused r) && belongs e p) || is_open e h
is_open e ((closes f, r) ∷ h) = not (end_eq e f) && is_open e h
is_open e (x ∷ h) = is_open e h

abbrev has_network : PodSpec → Bool
has_network spec = elim spec.network [ none ↦ false | some n ↦ true ]

-- The ends that the agent needs for the container that it has started: the one that it will hear from
-- and the one that it will write to.
abbrev pub in_use : PodSpec → End → Bool
in_use spec (reads ready) = has_network spec
in_use spec (writes created) = has_network spec
in_use spec _ = false

-- Where the process does not start, the ends of the two other pipes stay open.
abbrev pub left_open : PodSpec → PodStart → End → Bool
left_open spec (running pid) e = in_use spec e
left_open spec (gave_up not_started) e = has_network spec && not (belongs e sync)
left_open spec (gave_up _) e = false
left_open spec panicked e = belongs e sync

module _ (spec : PodSpec) (e : End) where
  abbrev Leaves : PodStart → NodeHistory → Type 0
  Leaves s g = is_open e g ≡ left_open spec s e

  abbrev Keeps : Bool → Unit {0} → NodeHistory → Type 0
  Keeps b u g = is_open e g ≡ b

  abbrev EndsWith : Bool → NodeHistory → NodeProg (Unit {0}) → Type 0
  EndsWith b h p = Ensures (λ u g. is_open e g ≡ b) p h

  write_quota-open :
      (b : Bool) (h : NodeHistory) → is_open e h ≡ b → EndsWith b h (write_quota spec)
  unfolding write_quota
  write_quota-open b h k =
      if_both (EndsWith b h) (is_positive spec.resources.cpu_max_percent) (λ r. k) k

  write_limits-open :
      (b : Bool) (h : NodeHistory) → is_open e h ≡ b → EndsWith b h (write_limits spec)
  unfolding write_limits
  write_limits-open b h k =
      if_both (EndsWith b h) (is_positive spec.resources.memory_max_mib)
        (λ r. write_quota-open b _ k) (write_quota-open b h k)

  launch-open :
      (net_env : List String) (h : NodeHistory)
      → has_network spec ≡ false
      → is_open e h ≡ belongs e sync
      → Ensures Leaves (launch spec net_env []) h
  unfolding launch
  launch-open net_env h n k refused = λ r₁ r₂ r₃. ground (arith, n, k)
  launch-open net_env h n k exists = λ r₁ r₂ r₃. ground (arith, n, k)
  launch-open net_env h n k done = λ r₁ r₂ r₃. ground (arith, n, k)
  launch-open net_env h n k (number pid) = λ r₁ r₂ r₃ r₄. ground (arith, n, k)

  -- Where all six ends are open.
  launch_all-open :
      (net_env : List String) (h : NodeHistory)
      → has_network spec ≡ true
      → is_open e h ≡ true
      → Ensures Leaves (launch spec net_env (writes ready ∷ reads created ∷ [])) h
  unfolding launch
  launch_all-open net_env h n k refused = λ r₁ r₂ r₃. ground (arith, n, k)
  launch_all-open net_env h n k exists = λ r₁ r₂ r₃. ground (arith, n, k)
  launch_all-open net_env h n k done = λ r₁ r₂ r₃. ground (arith, n, k)
  launch_all-open net_env h n k (number pid) = λ r₁ r₂ r₃ r₄ r₅ r₆. ground (arith, n, k)

  abbrev P : NodeHistory → NodeProg PodStart → Type 0
  P h p = Ensures Leaves p h

  launch_wired-open :
      (net_env : List String) (h : NodeHistory)
      → has_network spec ≡ true
      → is_open e h ≡ belongs e sync
      → Ensures Leaves (launch_wired spec net_env) h
  unfolding launch_wired
  launch_wired-open net_env h n k = λ r.
      if_cases (P ((makes_pipe ready, r) ∷ h)) (is_refused r)
        (λ x r₁ r₂ r₃. ground (arith, n, k, x))
        (λ x q.
          if_cases (P ((makes_pipe created, q) ∷ (makes_pipe ready, r) ∷ h)) (is_refused q)
            (λ y r₁ r₂ r₃ r₄ r₅. ground (arith, n, k, x, y))
            (λ y. launch_all-open net_env _ n (ground (arith, k, x, y))))

  launch_for-open :
      (net_env : List String) (h : NodeHistory) (o : Option PodNetwork)
      → spec.network ≡ o
      → is_open e h ≡ belongs e sync
      → Ensures Leaves (launch_for spec net_env o) h
  launch_for-open net_env h none n k = launch-open net_env h (ground (arith, n)) k
  launch_for-open net_env h (some o) n k = launch_wired-open net_env h (ground (arith, n)) k

  launch_with-open :
      (net_env command : List String) (h : NodeHistory)
      → is_open e h ≡ belongs e sync
      → Ensures Leaves (launch_with spec net_env command) h
  launch_with-open net_env [] h k = λ r. k
  launch_with-open net_env (c ∷ cs) h k = launch_for-open net_env h spec.network refl k

  start_in_cgroup-left :
      (net_env : List String) (h : NodeHistory)
      → is_open e h ≡ false
      → Ensures Leaves (start_in_cgroup spec net_env) h
  unfolding start_in_cgroup
  start_in_cgroup-left net_env h k =
      Ensures-bind (λ u g. is_open e g ≡ false) Leaves (write_limits spec) _ _
        (write_limits-open false h k)
        (λ u g j q.
          if_cases (P ((makes_pipe sync, q) ∷ g)) (is_refused q) (λ x r₁. ground (arith, j, x))
            (λ x. launch_with-open net_env spec.command _ (ground (arith, j, x))))

  start_pod_container-left :
      (net_env : List String) (h : NodeHistory)
      → is_open e h ≡ false
      → Ensures Leaves (start_pod_container spec net_env) h
  unfolding start_pod_container
  start_pod_container-left net_env h k refused = k
  start_pod_container-left net_env h k _ = start_in_cgroup-left net_env _ k

-- The agent holds, of a running container, the two ends that it uses, and none after it gave up;
-- but where the process of a pod with a network does not start, four ends stay open.
pub start_pod_container-ends :
    (kernel : Kernel) (spec : PodSpec) (net_env : List String) (h : NodeHistory) (e : End)
    → is_open e h ≡ false
    → let after = run kernel (start_pod_container spec net_env) h in
      is_open e after.1 ≡ left_open spec after.0 e
start_pod_container-ends kernel spec net_env h e k =
    Ensures-run (Leaves spec e) kernel (start_pod_container spec net_env) h
      (start_pod_container-left spec e net_env h k)
