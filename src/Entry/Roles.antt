-- ===== src/Entry/Roles.antt =====
-- Which processes become the init of the node.
use asterkube.Prelude.{
  Bool, true, false, not, ◌==◌, List, [], ◌∷◌, ◌≡◌, ◌↔◌, refl, if◌then◌else◌, All, arith,
  Bool-cases, inl, inr,
}
use asterkube.Prelude.{leb, length, String, sym, subst, ◌&&◌, ◌||◌}
use asterkube.Prelude.Text.{str_eq, eq_iff}
use asterkube.Entry.{arg, path_base, Role, init, kubelet, Process, guards, choose, role_of}

abbrev pub is_init : Role → Bool
is_init init = true
is_init _ = false

abbrev pub Fails : Bool × Role → Type 0
Fails g = g.0 ≡ false

abbrev IsOther : Bool × Role → Type 0
IsOther g = is_init g.1 ≡ false

choose-init :
    (gs : List (Bool × Role)) (r : Role)
    → All IsOther gs
    → is_init (choose gs r) ≡ true
    → All Fails gs × (is_init r ≡ true)
choose-init [] r o h = (tt, h)
choose-init (g ∷ gs) r o h = elim (Bool-cases g.0) [
  | inl e ↦ absurd (ground (arith, h, e, o.0))
  | inr e ↦ let later = choose-init gs r o.1 (ground (arith, h, e)) in ((e, later.0), later.1)
]

choose-last : (gs : List (Bool × Role)) (r : Role) → All Fails gs → choose gs r ≡ r
choose-last [] r f = refl
choose-last (g ∷ gs) r f = ground (arith, f.0, choose-last gs r f.1)

guards-IsOther : (p : Process) → All IsOther (guards p)
unfolding guards
guards-IsOther p = ground arith

-- Started by none of the tools' names.
abbrev pub IsNoTool : Process → Type 0
IsNoTool p =
    All (λ tool. str_eq (path_base (arg p 0)) tool ≡ false)
      ("runc" ∷ "asterkube-runc" ∷ "mount" ∷ "umount" ∷ "shebang-probe" ∷ [])

-- None of the variables is set by which a process is marked.
abbrev pub IsUnmarked : Process → Type 0
IsUnmarked p =
    All (λ name. p.env name ≡ "")
      ("ASTERKUBE_SECCOMP_PROBE" ∷ "ASTERKUBE_SUID_REPORT" ∷ "ASTERKUBE_CONTAINER"
        ∷ "ASTERKUBE_RUNC_PAYLOAD" ∷ "ASTERKUBE_PROBE_CHILD" ∷ [])

-- None of the variables by which a probe gives its processes their parts has one of its values.
abbrev pub HasNoPart : Process → Type 0
HasNoPart p =
    All (λ (v : String × String). str_eq (p.env v.0) v.1 ≡ false)
      (("ASTERKUBE_MAC_PROBE", "main")
        ∷ ("ASTERKUBE_MAC_PROBE", "peer")
        ∷ ("ASTERKUBE_FILE_MAC_PROBE", "main")
        ∷ ("ASTERKUBE_FILE_MAC_PROBE", "peer")
        ∷ ("ASTERKUBE_SOCKET_MAC_PROBE", "main")
        ∷ ("ASTERKUBE_SOCKET_MAC_PROBE", "peer")
        ∷ ("ASTERKUBE_USERNS_PROBE", "child")
        ∷ ("ASTERKUBE_ROOTLESS_PROBE", "unpriv")
        ∷ ("ASTERKUBE_ROOTLESS_PROBE", "userns")
        ∷ ("ASTERKUBE_USERMAP_PROBE", "unpriv")
        ∷ ("ASTERKUBE_USERMAP_PROBE", "child")
        ∷ ("ASTERKUBE_SANDBOX_NETNS", "hold")
        ∷ ("ASTERKUBE_SANDBOX_NETNS", "join")
        ∷ [])

-- No child of the container runtime's start.
abbrev pub IsNoChild : Process → Type 0
IsNoChild p = (leb 5 (length p.args) && str_eq (arg p 1) "__runc_init") ≡ false

abbrev pub IsInit : Process → Type 0
IsInit p = (p.pid ≡ 1) × IsNoChild p × IsNoTool p × IsUnmarked p × HasNoPart p

unset : (s : String) → not (str_eq s "") ≡ false → s ≡ ""
unset s h = (eq_iff s "").0 (ground (arith, h))

unset_back : (s : String) → s ≡ "" → not (str_eq s "") ≡ false
unset_back s h = subst (λ t. not (str_eq t "") ≡ false) (sym h) refl

neither_left : (a b : Bool) → a || b ≡ false → a ≡ false
neither_left a b h = ground (arith, h)

neither_right : (a b : Bool) → a || b ≡ false → b ≡ false
neither_right a b h = ground (arith, h)

neither : (a b : Bool) → a ≡ false → b ≡ false → a || b ≡ false
neither a b h k = ground (arith, h, k)

and_false : (a b : Bool) → a ≡ false → a && b ≡ false
and_false a b h = ground (arith, h)

Fails-IsInit : (p : Process) → All Fails (guards p) → p.pid ≡ 1 → IsInit p
unfolding guards
Fails-IsInit p f one = (
  one,
  f.0,
  (neither_left _ _ f.1.0, (neither_right _ _ f.1.0, (f.1.1.0, (f.1.1.1.0, (f.1.1.1.1.0, tt))))),
  (
    unset _ (f.1.1.1.1.1.0),
    (
      unset _ (f.1.1.1.1.1.1.1.1.1.1.1.1.1.1.1.1.1.0),
      (
        unset _ (f.1.1.1.1.1.1.1.1.1.1.1.1.1.1.1.1.1.1.1.1.0),
        (
          unset _ (f.1.1.1.1.1.1.1.1.1.1.1.1.1.1.1.1.1.1.1.1.1.0),
          (unset _ (f.1.1.1.1.1.1.1.1.1.1.1.1.1.1.1.1.1.1.1.1.1.1.1.1.1.0), tt),
        ),
      ),
    ),
  ),
  (
    f.1.1.1.1.1.1.0,
    (
      f.1.1.1.1.1.1.1.0,
      (
        f.1.1.1.1.1.1.1.1.0,
        (
          f.1.1.1.1.1.1.1.1.1.0,
          (
            f.1.1.1.1.1.1.1.1.1.1.0,
            (
              f.1.1.1.1.1.1.1.1.1.1.1.0,
              (
                f.1.1.1.1.1.1.1.1.1.1.1.1.0,
                (
                  f.1.1.1.1.1.1.1.1.1.1.1.1.1.0,
                  (
                    f.1.1.1.1.1.1.1.1.1.1.1.1.1.1.0,
                    (
                      f.1.1.1.1.1.1.1.1.1.1.1.1.1.1.1.0,
                      (
                        f.1.1.1.1.1.1.1.1.1.1.1.1.1.1.1.1.0,
                        (
                          f.1.1.1.1.1.1.1.1.1.1.1.1.1.1.1.1.1.1.0,
                          (f.1.1.1.1.1.1.1.1.1.1.1.1.1.1.1.1.1.1.1.0, tt),
                        ),
                      ),
                    ),
                  ),
                ),
              ),
            ),
          ),
        ),
      ),
    ),
  ),
)

IsInit-Fails : (p : Process) → IsInit p → All Fails (guards p)
unfolding guards
IsInit-Fails p i = (
  i.1,
  (
    neither _ _ (i.2.0) (i.2.1.0),
    (
      i.2.1.1.0,
      (
        i.2.1.1.1.0,
        (
          i.2.1.1.1.1.0,
          (
            unset_back _ (i.3.0),
            (
              i.4.0,
              (
                i.4.1.0,
                (
                  i.4.1.1.0,
                  (
                    i.4.1.1.1.0,
                    (
                      i.4.1.1.1.1.0,
                      (
                        i.4.1.1.1.1.1.0,
                        (
                          i.4.1.1.1.1.1.1.0,
                          (
                            i.4.1.1.1.1.1.1.1.0,
                            (
                              i.4.1.1.1.1.1.1.1.1.0,
                              (
                                i.4.1.1.1.1.1.1.1.1.1.0,
                                (
                                  i.4.1.1.1.1.1.1.1.1.1.1.0,
                                  (
                                    unset_back _ (i.3.1.0),
                                    (
                                      i.4.1.1.1.1.1.1.1.1.1.1.1.0,
                                      (
                                        i.4.1.1.1.1.1.1.1.1.1.1.1.1.0,
                                        (
                                          unset_back _ (i.3.1.1.0),
                                          (
                                            unset_back _ (i.3.1.1.1.0),
                                            (
                                              and_false _ _ (unset_back _ (i.3.1.1.1.1.0)),
                                              (
                                                and_false _ _ (unset_back _ (i.3.1.1.1.1.0)),
                                                (
                                                  and_false _ _ (unset_back _ (i.3.1.1.1.1.0)),
                                                  (unset_back _ (i.3.1.1.1.1.0), tt),
                                                ),
                                              ),
                                            ),
                                          ),
                                        ),
                                      ),
                                    ),
                                  ),
                                ),
                              ),
                            ),
                          ),
                        ),
                      ),
                    ),
                  ),
                ),
              ),
            ),
          ),
        ),
      ),
    ),
  ),
)

-- A process is the init of the node exactly if it has the pid 1, is no child of the container runtime, has no tool's
-- name, and has none of the variables by which a container or a part of a probe is marked.
pub role_of-IsInit_iff : (p : Process) → (is_init (role_of p) ≡ true) ↔ IsInit p
unfolding role_of
role_of-IsInit_iff p = (
  λ h.
      let c = choose-init (guards p) _ (guards-IsOther p) h in
      Fails-IsInit p c.0 (ground (arith, c.1)),
  λ i.
      let one = i.0 in
      ground (
        arith,
        one,
        choose-last (guards p) (if not (p.pid == 1) then kubelet else init) (IsInit-Fails p i),
      ),
)
