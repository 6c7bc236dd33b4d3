-- ===== src/Join/Kubelet/Leaving.antt =====
-- The processes that a join leaves running.
use asterkube.Prelude.{
  ℕ, zero, suc, ltb, ◌==◌, Bool, true, false, not, ◌||◌, List, [], ◌∷◌, Option, none, some, String,
  ◌&&◌, ◌≡◌, ◌⊎◌, inl, inr, Bool-cases, refl, if_both, arith,
}
use asterkube.Prelude.Prog.{Ensures, Ensures-bind}
use asterkube.Join.{
  JoinAnswer, JoinProg, JoinHistory, starts, kills, creates_file, is_failed, failed, fine, text,
  number, names, read_file_string, string_of,
}
use asterkube.Join.Kubelet.{
  Cmd, has_exited, started_cmd, started_of, watch_registration, watch_fuel, watch_kubelet, time_of,
  says_registered, Joined, no_containerd, no_log, no_kubelet, unregistered, registered, settle,
  join_with, start_cmd,
}

-- Whether a process was started and not killed.
abbrev pub is_left : ℕ → JoinHistory → Bool
is_left pid [] = false
is_left pid ((starts program args, number p) ∷ h) = p == pid || is_left pid h
is_left pid ((kills p, r) ∷ h) = not (p == pid) && is_left pid h
is_left pid (x ∷ h) = is_left pid h

module _ (cd : Cmd) (start : JoinHistory) where
  -- No process is left but those of the start.
  abbrev pub NoneMore : JoinHistory → Type 0
  NoneMore g = (p : ℕ) → is_left p g ≡ true → is_left p start ≡ true

  -- No process is left but those of the start and the kubelet.
  abbrev pub OneMore : Cmd → JoinHistory → Type 0
  OneMore k g = (p : ℕ) → is_left p g ≡ true → (p ≡ k.pid) ⊎ (is_left p start ≡ true)

  -- Where the node does not register, containerd and the kubelet are killed. Where the kubelet does not come up,
  -- containerd goes on, and is not kept.
  abbrev pub LeavesContainerd : Joined → JoinHistory → Type 0
  LeavesContainerd no_containerd g = (is_left cd.pid g ≡ true) × NoneMore g
  LeavesContainerd (no_log c) g = (c ≡ cd) × (is_left cd.pid g ≡ true) × NoneMore g
  LeavesContainerd (no_kubelet c) g = (c ≡ cd) × (is_left cd.pid g ≡ true) × NoneMore g
  LeavesContainerd unregistered g = (is_left cd.pid g ≡ false) × NoneMore g
  LeavesContainerd (registered c k) g =
      (c ≡ cd) × (is_left cd.pid g ≡ true) × (is_left k.pid g ≡ true) × OneMore k g

  abbrev BothLeft : Cmd → JoinHistory → Type 0
  BothLeft k g = (is_left cd.pid g ≡ true) × (is_left k.pid g ≡ true) × OneMore k g

  watch_registration-left :
      (fuel deadline : ℕ) (k : Cmd) (log_path : String) (h : JoinHistory)
      → BothLeft k h
      → Ensures (λ b g. BothLeft k g) (watch_registration fuel deadline k log_path) h
  unfolding watch_registration read_file_string
  watch_registration-left zero deadline k log_path h b = b
  watch_registration-left (suc fuel) deadline k log_path h b = λ r.
      let Q : JoinHistory → JoinProg (Option Bool) → Type 0 =
        λ g p. Ensures (λ b g. BothLeft k g) p g in
      if_both (Q _) (not (ltb (time_of r) deadline)) b (
        if_both (Q _) (has_exited k) b (λ q.
          if_both (Q _) (says_registered (string_of q)) b
            (λ s. watch_registration-left fuel deadline k log_path _ b)))

  killed-NoneMore :
      (k : Cmd) (h : JoinHistory) (r q : JoinAnswer)
      → OneMore k h
      → NoneMore ((kills cd.pid, q) ∷ (kills k.pid, r) ∷ h)
  killed-NoneMore k h r q one p l = elim (one p (ground (arith, l))) [
    | inl e ↦ absurd (ground (arith, l, e))
    | inr e ↦ e
  ]

  settle-left :
      (k : Cmd) (seen : Option Bool) (h : JoinHistory)
      → BothLeft k h
      → Ensures LeavesContainerd (settle cd k seen) h
  settle-left k (some true) h b = (refl, b.0, b.1, b.2)
  settle-left k (some false) h b = λ r q. (ground arith, killed-NoneMore k h r q b.2)
  settle-left k none h b = λ r q. (ground arith, killed-NoneMore k h r q b.2)

  started-OneMore :
      (pid : ℕ) (program : String) (args : List String) (h : JoinHistory)
      → NoneMore h
      → OneMore (started_cmd pid) ((starts program args, number pid) ∷ h)
  started-OneMore pid program args h n p l = elim (Bool-cases (pid == p)) [
    | inl e ↦ inl (ground (arith, e))
    | inr e ↦ inr (n p (ground (arith, l, e)))
  ]

  watch_kubelet-left :
      (log_path : String) (r : JoinAnswer) (program : String) (args : List String) (h : JoinHistory)
      → is_left cd.pid h ≡ true
      → NoneMore h
      → Ensures LeavesContainerd
          (watch_kubelet cd log_path (started_of r))
          ((starts program args, r) ∷ h)
  watch_kubelet-left log_path (number p) program args h l n = λ now.
      Ensures-bind (λ b g. BothLeft (started_cmd p) g) LeavesContainerd _ _ _
        (watch_registration-left watch_fuel _ (started_cmd p) log_path _
          (ground (arith, l), ground arith, started-OneMore p program args h n))
        (λ seen g b. settle-left (started_cmd p) seen g b)
  watch_kubelet-left log_path failed program args h l n = (refl, l, n)
  watch_kubelet-left log_path fine program args h l n = (refl, l, n)
  watch_kubelet-left log_path (text s) program args h l n = (refl, l, n)
  watch_kubelet-left log_path (names s) program args h l n = (refl, l, n)

  pub join_with-left :
      (args : List String) (log_path : String) (h : JoinHistory)
      → is_left cd.pid h ≡ true
      → NoneMore h
      → Ensures LeavesContainerd (join_with args log_path cd) h
  unfolding join_with start_cmd
  join_with-left args log_path h l n = λ r.
      if_both (λ (p : JoinProg Joined). Ensures LeavesContainerd p ((creates_file log_path, r) ∷ h))
        (is_failed r) (refl, l, n)
        (λ q.
          watch_kubelet-left log_path q "/usr/bin/kubelet" args ((creates_file log_path, r) ∷ h) l
            n)
