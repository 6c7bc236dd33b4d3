-- ===== src/Dhcp/Configure/LeaseFrames.antt =====
-- What configuring an interface sends, and from what lease.
use asterkube.Prelude.{
  ◌+◌, ◌%◌, ◌^◌, true, List, [], ◌∷◌, ◌++◌, Option, none, some, ◌≡◌, refl, ap, ap₂, ◌∙◌, subst,
  arith, if◌then◌else◌, Option-both, length, Bool-cases, inl, inr,
}
use asterkube.Prelude.Words.{Bytes}
use asterkube.Inet.{to4, is_nil}
use asterkube.Netlink.Message.{NlResult, ok, frame, rtm_newaddr, rtm_newroute}
use asterkube.Netlink.Socket.{NlSocket, Reply, next_seq, request}
use asterkube.Netlink.Requests.{
  add_addr_v4, add_default_route_v4, addr_body, default_route_body, create_replace_flags,
  create_flags,
}
use asterkube.Netlink.Requests.Addressing.{GoesOut, add_addr_v4-GoesOut}
use asterkube.Dhcp.Options.{DhcpLease}
use asterkube.Dhcp.Options.Shape.{IsV4OrNil}
use asterkube.Dhcp.Receive.{ok as acquired, failed, DhcpResult}
use asterkube.Dhcp.Client.{dhcp_acquire}
use asterkube.Dhcp.Client.Renew.{IsComplete, dhcp_acquire-IsComplete}
use asterkube.Netlink.Dump.{link_by_name}
use asterkube.Prelude.{ℕ, ◌≢◌, ◌⊎◌}
use asterkube.Dhcp.Configure.{
  fallback_mac, mask_size, has_gateway, ApplyEnv, route_sent, apply_lease_delta, FirstEnv,
  Configured, assign, configure, dhcp_first, assign_if_open, link_found, if_assigned, if_leased,
}

-- The frames of a lease: its address, and its default route if it has a gateway, under the next two
-- sequence numbers.
abbrev pub lease_frames : NlSocket → ℕ → DhcpLease → List Bytes
lease_frames s idx lease =
    frame rtm_newaddr create_replace_flags ((s.seq + 1) % 2 ^ 32) s.pid
      (addr_body idx lease.ip (mask_size lease.mask))
    ∷ (if has_gateway lease
        then frame rtm_newroute create_flags (((s.seq + 1) % 2 ^ 32 + 1) % 2 ^ 32) s.pid
            (default_route_body lease.gateway idx)
          ∷ []
        else [])

four_to4 : (ip : Bytes) → length ip ≡ 4 → to4 ip ≡ some ip
unfolding to4
four_to4 ip h = ground (arith, h)

address_sent :
    (s : NlSocket) (idx prefix : ℕ) (ip : Bytes) (reply : Reply)
    → length ip ≡ 4
    → ((add_addr_v4 s idx ip prefix reply).socket ≡ next_seq s)
      × ((add_addr_v4 s idx ip prefix reply).sent
          ≡ frame rtm_newaddr create_replace_flags
              ((s.seq + 1) % 2 ^ 32)
              s.pid
              (addr_body idx ip prefix)
            ∷ [])
address_sent s idx prefix ip reply h =
    subst
      (λ o.
        GoesOut o s (add_addr_v4 s idx ip prefix reply) rtm_newaddr create_replace_flags
          (λ v4. addr_body idx v4 prefix))
      (four_to4 ip h) (add_addr_v4-GoesOut s idx prefix ip reply)

route_frame :
    (s : NlSocket) (idx : ℕ) (gw : Bytes) (reply : Reply)
    → length gw ≡ 4
    → (add_default_route_v4 s gw idx reply).sent
      ≡ frame rtm_newroute create_flags ((s.seq + 1) % 2 ^ 32) s.pid (default_route_body gw idx)
        ∷ []
unfolding add_default_route_v4 request
route_frame s idx gw reply h = rw (four_to4 gw h, add_default_route_v4) refl

empty_nil : (b : Bytes) → length b ≡ 0 → is_nil b ≡ true
unfolding is_nil
empty_nil [] h = refl
empty_nil (x ∷ b) h = absurd (omega arith)

gateway_four :
    (lease : DhcpLease)
    → IsV4OrNil lease.gateway
    → has_gateway lease ≡ true
    → length lease.gateway ≡ 4
unfolding has_gateway
gateway_four lease (inr h) k = h
gateway_four lease (inl h) k = absurd (ground (arith, k, empty_nil lease.gateway h))

route_sent_lem :
    (s : NlSocket) (idx : ℕ) (lease : DhcpLease) (reply : Reply)
    → IsV4OrNil lease.gateway
    → route_sent s idx lease reply ≡ (
        if has_gateway lease
        then frame rtm_newroute create_flags
            ((s.seq + 1) % 2 ^ 32)
            s.pid
            (default_route_body lease.gateway idx)
          ∷ []
        else [])
unfolding route_sent
route_sent_lem s idx lease reply h = elim (Bool-cases (has_gateway lease)) [
  | inl e ↦ rw e (route_frame s idx lease.gateway reply (gateway_four lease h e))
  | inr e ↦ rw e refl
]

-- A complete lease is applied in at most two frames: its address with the length of its mask's prefix, and
-- its default route if it has a gateway, under the next two sequence numbers, whatever the kernel answers.
pub apply_lease_delta-sent :
    (s : NlSocket) (idx : ℕ) (lease : DhcpLease) (env : ApplyEnv)
    → IsComplete lease
    → (apply_lease_delta (some s) idx lease env).sent ≡ lease_frames s idx lease
unfolding apply_lease_delta
apply_lease_delta-sent s idx lease env u =
    let a = address_sent s idx (mask_size lease.mask) lease.ip env.address u.well_formed.ip_v4 in
    ap₂ (λ x y. x ++ y) a.1
      (ap (λ t. route_sent t idx lease env.route) a.0
        ∙ route_sent_lem (next_seq s) idx lease env.route u.well_formed.gateway_v4)

-- The hardware address that a client uses: the interface's, or 02:00:00:00:00:01 where it has none.
abbrev pub IsMacFor : Bytes → Bytes → Type 0
IsMacFor hardware mac =
    ((length hardware ≢ 0) × (mac ≡ hardware))
    ⊎ ((length hardware ≡ 0) × (mac ≡ 2 ∷ 0 ∷ 0 ∷ 0 ∷ 0 ∷ 1 ∷ []))

-- The index is that which linkByName found for the interface, and the hardware address too, where it found one.
abbrev pub IsFound : FirstEnv → Bytes → ℕ → Bytes → Type 0
IsFound env iface idx mac =
    (s : NlSocket) × (env.lookup_socket ≡ some s)
    × ((hardware : Bytes) × ((link_by_name s iface env.lookup).result ≡ ok (idx, hardware))
        × IsMacFor hardware mac)

-- The lease was acquired with the hardware address, and its frames are those sent.
abbrev pub IsLeased : FirstEnv → Configured → Type 0
IsLeased env c =
    IsComplete c.lease
    × ((dhcp_acquire c.mac env.xid env.acquire).result ≡ acquired c.lease)
    × ((s : NlSocket) × (env.socket ≡ some s) × (c.applied.sent ≡ lease_frames s c.index c.lease))

-- What a run that configures an interface has done.
abbrev pub IsConfigured : FirstEnv → Bytes → Configured → Type 0
IsConfigured env iface c = IsFound env iface c.index c.mac × IsLeased env c

if_assigned_same : (r : NlResult (Unit {0})) (x c : Configured) → if_assigned r x ≡ some c → x ≡ c
if_assigned_same r x c h = ground (arith, h)

module _ (env : FirstEnv) (iface : Bytes) (idx : ℕ) (mac : Bytes) (c : Configured)
    (found : IsFound env iface idx mac) where
  opened-IsConfigured :
      (lease : DhcpLease) (o : Option NlSocket)
      → (dhcp_acquire mac env.xid env.acquire).result ≡ acquired lease
      → env.socket ≡ o
      → assign_if_open o idx mac lease env.apply ≡ some c
      → IsConfigured env iface c
  unfolding assign
  opened-IsConfigured lease none k e h = absurd (ground arith)
  opened-IsConfigured lease (some s) k e h =
      let u = dhcp_acquire-IsComplete mac env.xid env.acquire lease k in
      subst (IsConfigured env iface) (if_assigned_same _ _ c h)
        (found, (u, k, (s, e, apply_lease_delta-sent s idx lease env.apply u)))

  leased-IsConfigured :
      (r : DhcpResult DhcpLease)
      → (dhcp_acquire mac env.xid env.acquire).result ≡ r
      → if_leased env idx mac r ≡ some c
      → IsConfigured env iface c
  leased-IsConfigured (acquired lease) k h = opened-IsConfigured lease env.socket k refl h
  leased-IsConfigured (failed e) k h = absurd (ground arith)

  configure-IsConfigured : configure env idx mac ≡ some c → IsConfigured env iface c
  unfolding configure
  configure-IsConfigured h =
      leased-IsConfigured (dhcp_acquire mac env.xid env.acquire).result refl h

chosen-IsMacFor :
    (hardware : Bytes) → IsMacFor hardware (if is_nil hardware then fallback_mac else hardware)
unfolding is_nil
chosen-IsMacFor [] = inr (refl, refl)
chosen-IsMacFor (b ∷ bs) = inl ((λ e. absurd (omega (arith, e))), refl)

link-IsConfigured :
    (env : FirstEnv) (iface : Bytes) (s : NlSocket) (r : NlResult (ℕ × Bytes)) (c : Configured)
    → env.lookup_socket ≡ some s
    → (link_by_name s iface env.lookup).result ≡ r
    → link_found env r ≡ some c
    → IsConfigured env iface c
link-IsConfigured env iface s (ok (idx, hardware)) c e l h =
    configure-IsConfigured env iface idx _ c (s, e, (hardware, l, chosen-IsMacFor hardware)) h
link-IsConfigured env iface s _ c e l h = absurd (ground arith)

-- Where dhcpFirst succeeds, linkByName has found the interface under the index used, and with the hardware address
-- used, or without one, and then a fixed one is used; the lease was acquired with that address and is complete, having a
-- four-byte address and a mask; and the frames sent are those of the lease for that index.
pub dhcp_first-IsConfigured :
    (env : FirstEnv) (iface : Bytes) (c : Configured)
    → dhcp_first env iface ≡ some c
    → IsConfigured env iface c
unfolding dhcp_first
dhcp_first-IsConfigured env iface c =
    Option-both (λ (r : Option Configured). r ≡ some c → IsConfigured env iface c) env.lookup_socket
      (λ e h. absurd (ground arith)) (λ s e h. link-IsConfigured env iface s _ c e refl h)
