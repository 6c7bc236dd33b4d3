-- ===== src/Node/Container/Ready.antt =====
-- When a pod tells the node agent that it is ready: containerVethTest of cmd/asterkube-init/node.go.
use asterkube.Prelude.{ℕ, false, [], ◌∷◌, String, ◌≡◌, refl, inl, inr, if_cases}
use asterkube.Prelude.{Bool, true, not, ◌&&◌, ◌||◌, arith}
use asterkube.Prelude.Text.{str_eq, str_eq-refl}
use asterkube.Prelude.Int.{ℤ}
use asterkube.Prelude.Prog.{Occurs, Makes-Ensures, Ensures, Ensures-bind, Ensures-run, run}
use asterkube.Node.Container.{
  ContainerCall, awaits_byte, signals_byte, opens_rtnl, looks_up, assigns, binds, unbinds,
  ContainerAnswer, failed, succeeded, index, sender, ContainerProg, ContainerHistory,
  ContainerKernel, Env, has_failed,
}
use asterkube.Node.Container.Quiet.{IsQuiet, network_tests-IsQuiet}
use asterkube.Node.Container.Veth.{
  VethResult, network_tests, listen_for_host, with_eth0, found_eth0, container_veth_test,
  veth_prefix, veth_udp_port,
}

abbrev IsAwaited : ContainerCall × ContainerAnswer → Type 0
IsAwaited x = x.0 ≡ awaits_byte 5

abbrev IsFound : ℕ → ContainerCall × ContainerAnswer → Type 0
IsFound idx x = x ≡ (looks_up "eth0", index idx)

abbrev IsAssigned : String → ℕ → ℤ → ContainerCall × ContainerAnswer → Type 0
IsAssigned ip idx prefix x = (x.0 ≡ assigns idx ip prefix) × (has_failed x.1 ≡ false)

-- Whether the pod has a socket bound to the address and port after the calls of a history.
abbrev pub is_bound : String → String → ContainerHistory → Bool
is_bound ip port [] = false
is_bound ip port ((binds a p, r) ∷ h) =
    (str_eq a ip && str_eq p port && not (has_failed r)) || is_bound ip port h
is_bound ip port ((unbinds a p, r) ∷ h) = not (str_eq a ip && str_eq p port) && is_bound ip port h
is_bound ip port (x ∷ h) = is_bound ip port h

-- The byte of the agent was waited for, whether it came or not, and eth0 was found under its name.
abbrev HasEth0 : ℕ → ContainerHistory → Type 0
HasEth0 idx h = Occurs IsAwaited h × Occurs (IsFound idx) h

-- The interface has the pod's address too, and the pod has a socket open on it.
abbrev pub IsListening : String → ℤ → ContainerHistory → Type 0
IsListening ip prefix h =
    (idx : ℕ) × HasEth0 idx h
    × Occurs (IsAssigned ip idx prefix) h
    × (is_bound ip veth_udp_port h ≡ true)

-- Whenever the agent was told something, the pod was listening by then.
abbrev pub ReadyAfter : String → ℤ → ContainerHistory → Type 0
ReadyAfter ip prefix [] = Unit
ReadyAfter ip prefix ((signals_byte fd, r) ∷ h) = IsListening ip prefix h × ReadyAfter ip prefix h
ReadyAfter ip prefix (x ∷ h) = ReadyAfter ip prefix h

module _ (env : Env) (ip : String) where
  abbrev Told : ContainerHistory → Type 0
  Told h = ReadyAfter ip (veth_prefix env) h

  Told-quiet :
      (c : ContainerCall) (r : ContainerAnswer) (h : ContainerHistory)
      → IsQuiet c
      → Told h
      → Told ((c, r) ∷ h)
  Told-quiet (signals_byte fd) r h q t = absurd q
  Told-quiet c r h q t = t

  abbrev Addressed : ℕ → ContainerHistory → Type 0
  Addressed idx h = HasEth0 idx h × Occurs (IsAssigned ip idx (veth_prefix env)) h × Told h

  Addressed-quiet :
      (idx : ℕ) (c : ContainerCall) (r : ContainerAnswer) (h : ContainerHistory)
      → IsQuiet c
      → Addressed idx h
      → Addressed idx ((c, r) ∷ h)
  Addressed-quiet idx c r h q a = ((inr a.0.0, inr a.0.1), inr a.1, Told-quiet c r h q a.2)

  abbrev Tells : ContainerHistory → ContainerProg VethResult → Type 0
  Tells h p = Ensures (λ a g. Told g) p h

  listen_for_host-Tells :
      (idx : ℕ) (h : ContainerHistory) → Addressed idx h → Tells h (listen_for_host ip)
  unfolding listen_for_host
  listen_for_host-Tells idx h a = λ b.
      let bound = (binds ip veth_udp_port, b) ∷ h in
      if_cases (Tells bound) (has_failed b) (λ e q. a.2)
        (λ e s r u v.
          ((idx, (inr a.0.0, inr a.0.1), inr a.1, ground (arith, e, str_eq-refl ip)), a.2))

  with_eth0-Tells :
      (idx : ℕ) (h : ContainerHistory) → HasEth0 idx h → Told h → Tells h (with_eth0 env ip idx)
  unfolding with_eth0
  with_eth0-Tells idx h f t = λ r.
      let g = (assigns idx ip (veth_prefix env), r) ∷ h in
      if_cases (Tells g) (has_failed r) (λ e q. t)
        (λ e.
          Ensures-bind (λ u f. Addressed idx f) (λ a f. Told f) (network_tests env ip idx) _ g
            (Makes-Ensures IsQuiet (Addressed idx) (Addressed-quiet idx) (network_tests env ip idx)
              g (network_tests-IsQuiet env ip idx) ((inr f.0, inr f.1), inl (refl, e), t))
            (λ u f a. listen_for_host-Tells idx f a))

  found_eth0-Tells :
      (r : ContainerAnswer) (h : ContainerHistory)
      → Occurs IsAwaited h
      → Told h
      → Tells ((looks_up "eth0", r) ∷ h) (found_eth0 env ip r)
  found_eth0-Tells (index idx) h w t =
      with_eth0-Tells idx ((looks_up "eth0", index idx) ∷ h) (inr w, inl refl) t
  found_eth0-Tells failed h w t = λ q. t
  found_eth0-Tells succeeded h w t = λ q. t
  found_eth0-Tells (sender s) h w t = λ q. t

  container_veth_test-Tells : (h : ContainerHistory) → Told h → Tells h (container_veth_test env ip)
  unfolding container_veth_test
  container_veth_test-Tells h t = λ w o.
      if_cases (Tells ((opens_rtnl, o) ∷ (awaits_byte 5, w) ∷ h)) (has_failed o) (λ e. t)
        (λ e r. found_eth0-Tells r ((opens_rtnl, o) ∷ (awaits_byte 5, w) ∷ h) (inr (inl refl)) t)

  -- A pod tells the node agent that it is ready only when it has waited on the descriptor by which the agent tells of
  -- eth0, eth0 was found and given the pod's address with the prefix of its environment, and the pod has a socket
  -- bound to that address, which is still open, whatever its other tests do and whatever fails.
  pub container_veth_test-ReadyAfter :
      (kernel : ContainerKernel)
      → ReadyAfter ip (veth_prefix env) (run kernel (container_veth_test env ip) []).1
  container_veth_test-ReadyAfter kernel =
      Ensures-run (λ a g. Told g) kernel (container_veth_test env ip) []
        (container_veth_test-Tells [] tt)
