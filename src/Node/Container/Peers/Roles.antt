-- ===== src/Node/Container/Peers/Roles.antt =====
-- Which of two pods listens and which one sends: containerPeerTest of cmd/asterkube-init/node.go.
use asterkube.Prelude.{
  ℕ, zero, suc, ◌+◌, Bool, true, false, not, [], ◌∷◌, some, String, ◌≡◌, ◌≢◌, ◌⊎◌, refl, sym, ap,
  ap₂, ◌∙◌, subst, inl, inr, Bool-cases, if_both, if_cases, ◌==◌, if◌then◌else◌, arith,
}
use asterkube.Prelude.Prog.{ret, call, ask, ◌>>◌, Makes, Makes-bind, Ensures, Ensures-bind}
use asterkube.Prelude.Words.{Bytes}
use asterkube.Inet.{parse_ip4}
use asterkube.Node.Container.{
  ContainerCall, binds, dials, sends_text, pings, sleeps, hangs_up, ContainerProg, ContainerHistory,
  has_failed,
}
use asterkube.Node.Container.Peers.{
  bytes_less, bridge_udp_port, peer_roles, ping_up_to, pod_udp_send, listen_to_peer, send_to_peer,
  container_peer_test, pod_udp_receive,
}

bytes_less-flip : (xs ys : Bytes) → xs ≢ ys → bytes_less ys xs ≡ not (bytes_less xs ys)
unfolding bytes_less
bytes_less-flip [] [] d = absurd (d refl)
bytes_less-flip [] (y ∷ ys) d = refl
bytes_less-flip (x ∷ xs) [] d = refl
bytes_less-flip (x ∷ xs) (y ∷ ys) d =
    let rest : x ≡ y → bytes_less ys xs ≡ not (bytes_less xs ys) =
      λ e. bytes_less-flip xs ys (λ t. d (ap₂ ◌∷◌ e t)) in
    ground (arith, rest)

-- It dials nothing, and writes to no socket.
abbrev pub SendsNothing : ContainerCall → Type 0
SendsNothing (dials ip port) = ⊥
SendsNothing (sends_text text) = ⊥
SendsNothing _ = Unit

-- It binds nothing, and dials the peer alone.
abbrev pub Dials : String → ContainerCall → Type 0
Dials peer (binds ip port) = ⊥
Dials peer (dials ip port) = (ip ≡ peer) × (port ≡ bridge_udp_port)
Dials peer _ = Unit

abbrev BindsFirst : String → ContainerProg (Unit {0}) → Type 0
BindsFirst ip (ret a) = ⊥
BindsFirst ip (call c k) = c ≡ binds ip bridge_udp_port

abbrev pub dial_count : ContainerHistory → ℕ
dial_count [] = 0
dial_count ((dials ip port, r) ∷ h) = 1 + dial_count h
dial_count (x ∷ h) = dial_count h

-- A program that binds the port before all else and sends no datagram.
abbrev pub Listens : String → ContainerProg (Unit {0}) → Type 0
Listens ip p = BindsFirst ip p × Makes SendsNothing p

-- A program that binds nothing and dials the peer ten times, whatever fails.
abbrev pub SendsTo : String → ContainerProg (Unit {0}) → Type 0
SendsTo peer p =
    Makes (Dials peer) p
    × ((h : ContainerHistory) → Ensures (λ u g. dial_count g ≡ 10 + dial_count h) p h)

module _ (peer : String) where
  ping_up_to-SendsNothing : (n : ℕ) → Makes SendsNothing (ping_up_to n peer)
  unfolding ping_up_to
  ping_up_to-SendsNothing zero = tt
  ping_up_to-SendsNothing (suc zero) = (tt, λ r. tt)
  ping_up_to-SendsNothing (suc (suc n)) = (
    tt,
    λ r. if_both (Makes SendsNothing) (has_failed r) (tt, λ q. ping_up_to-SendsNothing (suc n)) tt,
  )

  ping_up_to-Dials : (n : ℕ) → Makes (Dials peer) (ping_up_to n peer)
  unfolding ping_up_to
  ping_up_to-Dials zero = tt
  ping_up_to-Dials (suc zero) = (tt, λ r. tt)
  ping_up_to-Dials (suc (suc n)) =
      (tt, λ r. if_both (Makes (Dials peer)) (has_failed r) (tt, λ q. ping_up_to-Dials (suc n)) tt)

  -- Every run from a history ends with so many dials.
  abbrev Counts : ℕ → ContainerHistory → ContainerProg (Unit {0}) → Type 0
  Counts n h p = Ensures (λ u g. dial_count g ≡ n) p h

  ping_up_to-Counts : (n : ℕ) (h : ContainerHistory) → Counts (dial_count h) h (ping_up_to n peer)
  unfolding ping_up_to
  ping_up_to-Counts zero h = refl
  ping_up_to-Counts (suc zero) h = λ r. refl
  ping_up_to-Counts (suc (suc n)) h = λ r.
      if_both (Counts (dial_count h) ((pings peer, r) ∷ h)) (has_failed r)
        (λ q. ping_up_to-Counts (suc n) ((sleeps 2000, q) ∷ (pings peer, r) ∷ h)) refl

  pod_udp_send-Dials : (n : ℕ) → Makes (Dials peer) (pod_udp_send n peer)
  unfolding pod_udp_send
  pod_udp_send-Dials zero = tt
  pod_udp_send-Dials (suc n) =
      let paused = if_both (Makes (Dials peer)) (n == 0) tt (tt, λ q. pod_udp_send-Dials n) in
      (
        (refl, refl),
        λ r. if_both (Makes (Dials peer)) (has_failed r) paused (tt, λ q. (tt, λ v. paused)),
      )

  pod_udp_send-Counts :
      (n k : ℕ) (h : ContainerHistory) → n + dial_count h ≡ k → Counts k h (pod_udp_send n peer)
  unfolding pod_udp_send
  pod_udp_send-Counts zero k h e = omega (arith, e)
  pod_udp_send-Counts (suc n) k h e = λ r.
      let dialled = (dials peer bridge_udp_port, r) ∷ h in
      let paused : (g : ContainerHistory)
          → dial_count g ≡ dial_count dialled
          → Counts k g (if n == 0 then ret tt else ask (sleeps 1000) >> pod_udp_send n peer) =
        λ g d.
          if_cases (Counts k g) (n == 0) (λ z. ground (arith, d, e, z))
            (λ z q. pod_udp_send-Counts n k ((sleeps 1000, q) ∷ g) (omega (arith, d, e))) in
      if_both (Counts k dialled) (has_failed r) (paused dialled refl)
        (λ q v. paused ((hangs_up, v) ∷ (sends_text "bridged-hello", q) ∷ dialled) refl)

  listen_to_peer-Listens : (ip : String) → Listens ip (listen_to_peer ip peer)
  unfolding listen_to_peer pod_udp_receive
  listen_to_peer-Listens ip = (
    refl,
    (
      tt,
      λ r.
          Makes-bind SendsNothing (ping_up_to 3 peer) _ (ping_up_to-SendsNothing 3)
            (λ u. if_both (Makes SendsNothing) (has_failed r) tt (tt, λ q. (tt, λ v. tt))),
    ),
  )

  send_to_peer-SendsTo : SendsTo peer (send_to_peer peer)
  unfolding send_to_peer
  send_to_peer-SendsTo = (
    Makes-bind (Dials peer) (ping_up_to 3 peer) _ (ping_up_to-Dials 3) (λ u. pod_udp_send-Dials 10),
    λ h.
        Ensures-bind (λ u g. dial_count g ≡ dial_count h) (λ u g. dial_count g ≡ 10 + dial_count h)
          (ping_up_to 3 peer) _ h (ping_up_to-Counts 3 h)
          (λ u g e. pod_udp_send-Counts 10 (10 + dial_count h) g (omega (arith, e))),
  )

role :
    (a b : String) (x y : Bytes) (lower : Bool)
    → parse_ip4 a ≡ some x
    → parse_ip4 b ≡ some y
    → bytes_less x y ≡ lower
    → container_peer_test a b ≡ (if lower then listen_to_peer a b else send_to_peer b)
unfolding container_peer_test
role a b x y lower p q e =
    ap₂ (peer_roles a b) p q ∙ ap (λ c. if c then listen_to_peer a b else send_to_peer b) e

-- Of two pods that have each other's address, the addresses being different, one binds its port before it does
-- anything else and sends no datagram, and the other binds nothing and dials the first one ten times,
-- whatever fails.
pub container_peer_test-SendsTo :
    (a b : String) (x y : Bytes)
    → parse_ip4 a ≡ some x
    → parse_ip4 b ≡ some y
    → x ≢ y
    → (Listens a (container_peer_test a b) × SendsTo a (container_peer_test b a))
      ⊎ (SendsTo b (container_peer_test a b) × Listens b (container_peer_test b a))
container_peer_test-SendsTo a b x y p q d =
    let flip = bytes_less-flip x y d in
    elim (Bool-cases (bytes_less x y)) [
      | inl e ↦ inl (
        subst (Listens a) (sym (role a b x y true p q e)) (listen_to_peer-Listens b a),
        subst (SendsTo a) (sym (role b a y x false q p (flip ∙ ap not e))) (send_to_peer-SendsTo a),
      )
      | inr e ↦ inr (
        subst (SendsTo b) (sym (role a b x y false p q e)) (send_to_peer-SendsTo b),
        subst (Listens b) (sym (role b a y x true q p (flip ∙ ap not e)))
            (listen_to_peer-Listens a b),
      )
    ]
