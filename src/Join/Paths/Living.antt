-- ===== src/Join/Paths/Living.antt =====
-- What a join comes to for the node: it is live where it has joined.
use asterkube.Prelude.{
  ℕ, zero, suc, Bool, true, false, not, List, ◌∷◌, Option, none, some, String, ◌≡◌, refl, subst,
  sym, if_both, arith,
}
use asterkube.Prelude.Text.{str_eq, str_append}
use asterkube.Mount.Fstab.{trim_space}
use asterkube.Prelude.Prog.{
  ret, Makes, Makes-bind, Makes-Ensures, Ensures, Ensures-bind, Ensures-last, Ensures-weaken,
}
use asterkube.Join.{
  JoinCall, JoinAnswer, JoinProg, JoinHistory, starts, kills, makes_dir, creates_file, is_failed,
  failed, fine, text, number, names, exists, parse_env_file,
}
use asterkube.Join.Files.{write_if_absent, prepare_kubelet_node_files, configure_eth0_best_effort}
use asterkube.Join.Kubelet.{
  Cmd, has_exited, started_cmd, started_of, await_socket, serve_or_kill, await_containerd,
  start_static_containerd, start_cmd, Joined, no_containerd, no_log, no_kubelet, unregistered,
  registered,
}
use asterkube.Join.Kubelet.Leaving.{is_left, LeavesContainerd, join_with-left}
use asterkube.Join.Paths.{
  Boot, Outcome, tried, join_behind, finish_join, join_runtime, node_containerd, prepare_runtime,
  join_settings, apply_bundle, boot_config, node_args, join_by_token, containerd_sock, join_cluster,
  join_from_bundle, join_trusted, boot_args_join,
}

-- A call that neither starts nor kills a process.
abbrev IsQuiet : JoinCall → Type 0
IsQuiet (starts program args) = ⊥
IsQuiet (kills pid) = ⊥
IsQuiet _ = Unit

quiet_left :
    (pid : ℕ) (c : JoinCall) (r : JoinAnswer) (h : JoinHistory)
    → IsQuiet c
    → is_left pid h ≡ true
    → is_left pid ((c, r) ∷ h) ≡ true
quiet_left pid (starts program args) r h q e = absurd q
quiet_left pid (kills p) r h q e = absurd q
quiet_left pid _ r h q e = e

abbrev IsUp : Option Cmd → JoinHistory → Type 0
IsUp none g = Unit
IsUp (some cd) g = (has_exited cd ≡ false) × (is_left cd.pid g ≡ true)

await_socket-IsQuiet : (tries : ℕ) (sock : String) → Makes IsQuiet (await_socket tries sock)
unfolding await_socket exists
await_socket-IsQuiet zero sock = tt
await_socket-IsQuiet (suc tries) sock = (
  tt,
  λ r. if_both (Makes IsQuiet) (not (is_failed r)) tt (tt, λ s. await_socket-IsQuiet tries sock),
)

serve_or_kill-IsUp :
    (p : ℕ) (b : Bool) (h : JoinHistory)
    → is_left p h ≡ true
    → Ensures IsUp (serve_or_kill (started_cmd p) b) h
serve_or_kill-IsUp p true h l = (refl, l)
serve_or_kill-IsUp p false h l = λ r. tt

await_containerd-IsUp :
    (sock : String) (r : JoinAnswer) (program : String) (args : List String) (h : JoinHistory)
    → Ensures IsUp (await_containerd sock (started_of r)) ((starts program args, r) ∷ h)
await_containerd-IsUp sock (number p) program args h =
    let g = (starts program args, number p) ∷ h in
    Ensures-bind (λ b g. is_left p g ≡ true) IsUp (await_socket 100 sock) _ g
      (Makes-Ensures IsQuiet (λ g. is_left p g ≡ true) (quiet_left p) (await_socket 100 sock) g
        (await_socket-IsQuiet 100 sock) (ground arith))
      (λ b f l. serve_or_kill-IsUp p b f l)
await_containerd-IsUp sock failed program args h = tt
await_containerd-IsUp sock fine program args h = tt
await_containerd-IsUp sock (text s) program args h = tt
await_containerd-IsUp sock (names s) program args h = tt

start_static_containerd-IsUp :
    (root state sock log_path : String) (h : JoinHistory)
    → Ensures IsUp (start_static_containerd root state sock log_path) h
unfolding start_static_containerd start_cmd
start_static_containerd-IsUp root state sock log_path h = λ a b r.
    if_both
      (λ (p : JoinProg (Option Cmd)).
        Ensures IsUp p
          ((creates_file log_path, r) ∷ (makes_dir state, b) ∷ (makes_dir root, a) ∷ h))
      (is_failed r) tt (λ q. await_containerd-IsUp sock q _ _ _)

write_if_absent-IsQuiet : (path content : String) → Makes IsQuiet (write_if_absent path content)
unfolding write_if_absent exists
write_if_absent-IsQuiet path content =
    (tt, λ r. if_both (Makes IsQuiet) (not (is_failed r)) tt (tt, λ s. tt))

prepare_kubelet_node_files-IsQuiet : Makes IsQuiet prepare_kubelet_node_files
unfolding prepare_kubelet_node_files
prepare_kubelet_node_files-IsQuiet =
    let absent = write_if_absent-IsQuiet in
    (
      tt,
      λ r. (
        tt,
        λ r. Makes-bind IsQuiet _ _ (absent _ _) (λ u.
            Makes-bind IsQuiet _ _ (absent _ _)
              (λ u. Makes-bind IsQuiet _ _ (absent _ _) (λ u. absent _ _))),
      ),
    )

-- What a join comes to: where the node has registered, its two processes run and are not known to have exited.
abbrev pub Settled : Outcome → JoinHistory → Type 0
Settled (tried (registered cd k)) g =
    (has_exited cd ≡ false) × (is_left cd.pid g ≡ true) × (is_left k.pid g ≡ true)
Settled _ g = Unit

abbrev SettledBehind : Joined → JoinHistory → Type 0
SettledBehind j g = Settled (tried j) g

left-settled :
    (cd : Cmd) (start : JoinHistory) (j : Joined) (g : JoinHistory)
    → has_exited cd ≡ false
    → LeavesContainerd cd start j g
    → SettledBehind j g
left-settled cd start (registered c k) g e l = (
  subst (λ x. has_exited x ≡ false) (sym l.0) e,
  subst (λ x. is_left x.pid g ≡ true) (sym l.0) l.1,
  l.2,
)
left-settled cd start no_containerd g e l = tt
left-settled cd start (no_log c) g e l = tt
left-settled cd start (no_kubelet c) g e l = tt
left-settled cd start unregistered g e l = tt

join_behind-settled :
    (args : List String) (o : Option Cmd) (h : JoinHistory)
    → IsUp o h
    → Ensures SettledBehind (join_behind args o) h
join_behind-settled args none h u = tt
join_behind-settled args (some cd) h u = λ r.
    Ensures-bind (λ x g. is_left cd.pid g ≡ true) SettledBehind prepare_kubelet_node_files _ _
      (Makes-Ensures IsQuiet (λ g. is_left cd.pid g ≡ true) (quiet_left cd.pid)
        prepare_kubelet_node_files _ prepare_kubelet_node_files-IsQuiet u.1)
      (λ x g l.
        Ensures-weaken (LeavesContainerd cd g) SettledBehind _ g
          (join_with-left cd g args "/run/kubelet-join.log" g l (λ p e. e))
          (λ j f m. left-settled cd g j f u.0 m))

finish_join-Settled :
    (args : List String) (cd : Option Cmd) (h : JoinHistory)
    → IsUp cd h
    → Ensures Settled (finish_join args cd) h
finish_join-Settled args cd h up =
    Ensures-bind SettledBehind Settled (join_behind args cd) (λ j. ret (tried j)) h
      (join_behind-settled args cd h up) (λ j g s. s)

join_cluster-Settled :
    (b : Boot) (args : List String) (h : JoinHistory) → Ensures Settled (join_cluster b args) h
unfolding join_cluster
join_cluster-Settled b args h =
    Ensures-last Settled (prepare_runtime b) (λ u. join_runtime args) h
      (λ u g.
        Ensures-bind IsUp Settled node_containerd (finish_join args) g
          (start_static_containerd-IsUp "/run/containerd/root" "/run/containerd/state"
            containerd_sock "/run/containerd/containerd.log" g)
          (λ cd f up. finish_join-Settled args cd f up))

pub join_from_bundle-Settled :
    (b : Boot) (dir : String) (h : JoinHistory) → Ensures Settled (join_from_bundle b dir) h
unfolding join_from_bundle
join_from_bundle-Settled b dir h =
    Ensures-last Settled (parse_env_file (str_append dir "/node.env")) (join_settings b dir) h
      (λ s g. Ensures-last Settled (apply_bundle b dir _) _ g (λ u f. join_cluster-Settled b _ f))

join_trusted-Settled :
    (b : Boot) (args : List String) (ok : Bool) (h : JoinHistory)
    → Ensures Settled (join_trusted b args ok) h
join_trusted-Settled b args true h = join_cluster-Settled b args h
join_trusted-Settled b args false h = tt

pub boot_args_join-Settled : (b : Boot) (h : JoinHistory) → Ensures Settled (boot_args_join b) h
unfolding boot_args_join
boot_args_join-Settled b h =
    if_both (λ (p : JoinProg Outcome). Ensures Settled p h)
      (str_eq (trim_space (b.env "ASTERKUBE_TOKEN")) "") tt
      (Ensures-last Settled (configure_eth0_best_effort b.network_configured) (λ u. join_by_token b)
        h
        (λ u g.
          Ensures-last Settled (boot_config b) (join_trusted b (node_args b)) g
            (λ ok f. join_trusted-Settled b (node_args b) ok f)))
