-- ===== src/Join/Bundle.antt =====
-- The disk with a join bundle: findJoinBundle of cmd/asterkube-init/join_bundle_linux.go.
use asterkube.Prelude.{
  ℕ, suc, ◌-◌, ◌≤◌, Bool, true, false, not, List, [], ◌∷◌, Option, none, some, String, ◌≡◌, refl,
  if◌then◌else◌, if_both, if_cases, subst, sym, ◌∙◌, inl, inr, Bool-cases, arith,
}
use asterkube.Prelude.Text.{str_append}
use asterkube.Prelude.Prog.{ret, ask, bind, run, run-bind, ◌>>=◌, ◌>>◌}
use asterkube.Join.{
  JoinCall, JoinProg, JoinHistory, JoinSystem, stats, mounts, unmounts, makes_dir, is_failed,
  exists,
}

abbrev pub join_bundle_mount : String
join_bundle_mount = "/mnt/join"

abbrev pub marker_of : String → String
marker_of dir = str_append dir "/.asterkube-join"

abbrev pub kubeconfig_of : String → String
kubeconfig_of dir = str_append dir "/kubeconfig"

-- The second file is looked for only where the first is there.
unfoldable pub is_join_bundle : String → JoinProg Bool
unfolding exists
is_join_bundle dir =
    exists (marker_of dir) >>= λ b. if b then exists (kubeconfig_of dir) else ret false

abbrev pub mount_bundle : String → JoinCall
mount_bundle dev = mounts dev join_bundle_mount

-- The devices, one after the other; a disk that is no bundle is unmounted again.
unfoldable pub probe_devices : List String → JoinProg (Option String)
unfolding exists
probe_devices [] = ret none
probe_devices (dev ∷ devs) = exists dev >>= λ there.
    if not there
    then probe_devices devs
    else ask (mount_bundle dev) >>= λ r.
        if is_failed r
        then probe_devices devs
        else is_join_bundle join_bundle_mount >>= λ b.
            if b
            then ret (some join_bundle_mount)
            else ask (unmounts join_bundle_mount) >> probe_devices devs

abbrev pub bundle_devices : List String
bundle_devices = "/dev/vda" ∷ "/dev/vdb" ∷ "/dev/vdc" ∷ "/dev/vdd" ∷ "/dev/vde" ∷ []

unfoldable pub find_join_bundle : JoinProg (Option String)
find_join_bundle = is_join_bundle join_bundle_mount >>= λ b.
    if b
    then ret (some join_bundle_mount)
    else is_join_bundle "/ext2" >>= λ e.
        if e
        then ret (some "/ext2")
        else ask (makes_dir join_bundle_mount) >> probe_devices bundle_devices

-- The disks that hang at the mount point, each mount(2) that was not refused and not undone.
abbrev pub mounted : JoinHistory → ℕ
mounted [] = 0
mounted ((mounts dev dir, r) ∷ h) = if is_failed r then mounted h else suc (mounted h)
mounted ((unmounts dir, r) ∷ h) = if is_failed r then mounted h else mounted h - 1
mounted (x ∷ h) = mounted h

-- The last two looks found the marker and the kubeconfig of a directory.
abbrev pub LooksLikeBundle : String → JoinHistory → Type 0
LooksLikeBundle dir ((c, r) ∷ (d, q) ∷ h) =
    ((c ≡ stats (kubeconfig_of dir)) × (is_failed r ≡ false))
    × ((d ≡ stats (marker_of dir)) × (is_failed q ≡ false))
LooksLikeBundle dir _ = ⊥

-- What the search comes to: a bundle, with one disk more at most; or nothing, and no disk.
abbrev pub Found : ℕ → Option String → JoinHistory → Type 0
Found before none h = mounted h ≡ before
Found before (some dir) h = LooksLikeBundle dir h × (mounted h ≤ suc before)

-- A kernel that unmounts what it has mounted.
abbrev pub Unmounts : JoinSystem → Type 0
Unmounts sys = (h : JoinHistory) (dir : String) → is_failed (sys h (unmounts dir)) ≡ false

module _ (sys : JoinSystem) (unmounting : Unmounts sys) where
  abbrev Looks : String → JoinHistory → Bool × JoinHistory → Type 0
  Looks dir h r = (r.0 ≡ true → LooksLikeBundle dir r.1) × (mounted r.1 ≡ mounted h)

  is_join_bundle-Looks :
      (dir : String) (h : JoinHistory) → Looks dir h (run sys (is_join_bundle dir) h)
  unfolding is_join_bundle exists
  is_join_bundle-Looks dir h =
      let r = sys h (stats (marker_of dir)) in
      if_cases (λ (p : JoinProg Bool). Looks dir h (run sys p ((stats (marker_of dir), r) ∷ h)))
        (not (is_failed r))
        (λ a. ((λ b. ((refl, ground (arith, b)), (refl, ground (arith, a)))), refl))
        (λ a. ((λ b. absurd (ground (arith, b))), refl))

  abbrev Finds : ℕ → JoinHistory → JoinProg (Option String) → Type 0
  Finds n h p = Found n (run sys p h).0 (run sys p h).1

  probe_devices-found :
      (devs : List String) (h : JoinHistory) (n : ℕ)
      → mounted h ≡ n
      → Finds n h (probe_devices devs)
  unfolding probe_devices exists
  probe_devices-found [] h n e = e
  probe_devices-found (dev ∷ devs) h n e =
      let h₁ = (stats dev, sys h (stats dev)) ∷ h in
      let q = sys h₁ (mount_bundle dev) in
      let h₂ = (mount_bundle dev, q) ∷ h₁ in
      let looked = run sys (is_join_bundle join_bundle_mount) h₂ in
      let looks = is_join_bundle-Looks join_bundle_mount h₂ in
      if_both (Finds n h₁) (not (not (is_failed (sys h (stats dev)))))
        (probe_devices-found devs h₁ n e)
        (if_cases (Finds n h₂) (is_failed q)
          (λ a. probe_devices-found devs h₂ n (ground (arith, e, a)))
          (λ a.
            subst (λ x. Found n x.0 x.1)
              (sym (run-bind sys (is_join_bundle join_bundle_mount) _ h₂))
              (if_cases (Finds n looked.1) looked.0
                (λ b. (looks.0 b, ground (arith, looks.1, e, a)))
                (λ b.
                  probe_devices-found devs _ n
                    (ground (arith, looks.1, e, a, unmounting looked.1 join_bundle_mount))))))

  found_after :
      (dir : String) (h : JoinHistory) (n : ℕ)
      → mounted h ≡ n
      → (f : Bool → JoinProg (Option String))
      → ((g : JoinHistory) → LooksLikeBundle dir g → mounted g ≡ n → Finds n g (f true))
      → ((g : JoinHistory) → mounted g ≡ n → Finds n g (f false))
      → Finds n h (bind (is_join_bundle dir) f)
  found_after dir h n e f there away =
      let looked = run sys (is_join_bundle dir) h in
      let looks = is_join_bundle-Looks dir h in
      let same : mounted looked.1 ≡ n = looks.1 ∙ e in
      subst (λ x. Found n x.0 x.1) (sym (run-bind sys (is_join_bundle dir) f h))
        (elim (Bool-cases looked.0) [
          | inl b ↦ subst (λ x. Finds n looked.1 (f x)) (sym b) (there looked.1 (looks.0 b) same)
          | inr b ↦ subst (λ x. Finds n looked.1 (f x)) (sym b) (away looked.1 same)
        ])

  -- The search returns a directory in which the marker and the kubeconfig were seen, with at most one disk more
  -- mounted than before; or it returns nothing, and leaves no disk mounted.
  pub find_join_bundle-found : (h : JoinHistory) → Finds (mounted h) h find_join_bundle
  unfolding find_join_bundle
  find_join_bundle-found h =
      found_after join_bundle_mount h (mounted h) refl _ (λ g l m. (l, omega (arith, m)))
        (λ g m.
          found_after "/ext2" g (mounted h) m _ (λ f l k. (l, omega (arith, k)))
            (λ f k. probe_devices-found bundle_devices _ (mounted h) k))
