-- ===== src/Dhcp/Client/Renew.antt =====
-- Renewals by dhcpRenew of cmd/asterkube-init/dhcp_linux.go, and the shape of every lease.
use asterkube.Prelude.{
  ℕ, ◌≤◌, ◌≡◌, ◌≢◌, inl, inr, refl, sym, subst, Bool, true, false, List, [], ◌∷◌, Option, none,
  some, arith, length, length-take, length-drop, All, drop,
}
use asterkube.Prelude.Words.{Bytes}
use asterkube.Inet.{is_unspecified, Ip, is_nil}
use asterkube.Dhcp.Packet.{dhcp_ack}
use asterkube.Dhcp.Options.{DhcpLease}
use asterkube.Dhcp.Options.Shape.{IsWellFormed, parse_options-IsWellFormed}
use asterkube.Dhcp.Receive.{
  Poll, DhcpResult, ok, failed, recv_dhcp, cut_to_buffer, packet_yiaddr, packet_options,
  would_block, recv_error, datagram, socket_failed, bind_failed,
}
use asterkube.Dhcp.Receive.Answers.{Answered, IsAnswer, recv_dhcp-ok_iff}
use asterkube.Dhcp.Client.{
  Trace, AcquireEnv, RenewEnv, unless_fails, send_or_fail, or_dns, carry_forward, merge_offer,
  renew_packet, dhcp_renew, dhcp_acquire,
}
use asterkube.Dhcp.Client.Acquire.{dhcp_acquire-Acquired}

length-packet_yiaddr : (pkt : Bytes) → 240 ≤ length pkt → length (packet_yiaddr pkt) ≡ 4
unfolding packet_yiaddr
length-packet_yiaddr pkt h = omega (arith, length-take 4 (drop 16 pkt), length-drop 16 pkt)

IsAnswer-IsWellFormed :
    (xid want : ℕ) (pkt : Bytes) (lease : DhcpLease)
    → IsAnswer xid want pkt lease
    → IsWellFormed lease
IsAnswer-IsWellFormed xid want pkt lease a = subst IsWellFormed a.holds (
    parse_options-IsWellFormed (packet_options pkt) (packet_yiaddr pkt)
      (length-packet_yiaddr pkt a.long))

Answered-IsWellFormed :
    (xid want : ℕ) (lease : DhcpLease) (polls : List Poll)
    → Answered xid want lease polls
    → IsWellFormed lease
Answered-IsWellFormed xid want lease [] h = elim h [ ]
Answered-IsWellFormed xid want lease (would_block ∷ more) h =
    Answered-IsWellFormed xid want lease more h
Answered-IsWellFormed xid want lease (recv_error e ∷ more) h = elim h [ ]
Answered-IsWellFormed xid want lease (datagram d ∷ more) (inl a) =
    IsAnswer-IsWellFormed xid want (cut_to_buffer d) lease a
Answered-IsWellFormed xid want lease (datagram d ∷ more) (inr (n, h)) =
    Answered-IsWellFormed xid want lease more h

-- Every lease that recvDHCP returns is well formed, whatever bytes the network delivers.
pub recv_dhcp-IsWellFormed :
    (xid want : ℕ) (lease : DhcpLease) (polls : List Poll)
    → recv_dhcp xid want polls ≡ ok lease
    → IsWellFormed lease
recv_dhcp-IsWellFormed xid want lease polls h =
    Answered-IsWellFormed xid want lease polls ((recv_dhcp-ok_iff xid want lease polls).0 h)

-- A lease with all that is assigned from it: well formed, and with a mask.
pub record IsComplete (lease : DhcpLease) : Type 0 where
  pub well_formed : IsWellFormed lease
  pub has_mask : length lease.mask ≡ 4

or_dns-All :
    (xs ys : List Ip)
    → All (λ d. length d ≡ 4) xs
    → All (λ d. length d ≡ 4) ys
    → All (λ d. length d ≡ 4) (or_dns xs ys)
unfolding or_dns
or_dns-All [] ys h k = k
or_dns-All (x ∷ xs) ys h k = h

is_nil-zero : (b : Bytes) → is_nil b ≡ true → length b ≡ 0
unfolding is_nil
is_nil-zero [] h = refl
is_nil-zero (x ∷ b) h = cc

is_nil-pos : (b : Bytes) → is_nil b ≡ false → length b ≢ 0
unfolding is_nil
is_nil-pos [] h = cc
is_nil-pos (x ∷ b) h = λ e. omega arith

carry_forward-IsComplete :
    (ack lease : DhcpLease)
    → IsWellFormed ack
    → IsComplete lease
    → IsComplete (carry_forward ack lease)
unfolding carry_forward
carry_forward-IsComplete ack lease a u = record {
  well_formed = record {
    ip_v4 = ground arith;
    mask_v4 = ground arith;
    gateway_v4 = ground arith;
    server_v4 = ground arith;
    dns_v4 = or_dns-All ack.dns lease.dns a.dns_v4 u.well_formed.dns_v4;
  };
  has_mask = ground (arith, is_nil-pos ack.mask);
}

merge_offer-IsComplete :
    (ack offer : DhcpLease)
    → IsWellFormed ack
    → IsWellFormed offer
    → IsComplete (merge_offer ack offer)
unfolding merge_offer
merge_offer-IsComplete ack offer a o = record {
  well_formed = record {
    ip_v4 = a.ip_v4;
    mask_v4 = ground arith;
    gateway_v4 = ground arith;
    server_v4 = a.server_v4;
    dns_v4 = or_dns-All ack.dns offer.dns a.dns_v4 o.dns_v4;
  };
  has_mask = ground (arith, is_nil-pos ack.mask, is_nil-pos offer.mask);
}

-- A lease from dhcpAcquire is complete: a four-byte address and a four-byte mask, whatever the server
-- left out of its OFFER and its ACK and whatever else was received meanwhile.
pub dhcp_acquire-IsComplete :
    (mac : Bytes) (xid : ℕ) (env : AcquireEnv) (lease : DhcpLease)
    → (dhcp_acquire mac xid env).result ≡ ok lease
    → IsComplete lease
dhcp_acquire-IsComplete mac xid env lease h =
    let a = dhcp_acquire-Acquired mac xid env lease h in
    subst IsComplete (sym a.merged) (
      merge_offer-IsComplete a.ack a.offer (recv_dhcp-IsWellFormed _ _ _ _ a.acked)
        (recv_dhcp-IsWellFormed _ _ _ _ a.offered))

module _ (mac : Bytes) (xid : ℕ) (lease : DhcpLease) (rebind : Bool) (env : RenewEnv)
    (new : DhcpLease) where
  -- A renewal succeeds only with an ACK to its own transaction, and gives the ACK's lease, with what it
  -- leaves out carried forward from the old one; one packet has gone out.
  pub dhcp_renew-ok :
      (dhcp_renew mac xid lease rebind env).result ≡ ok new
      → (ack : DhcpLease) × (recv_dhcp xid dhcp_ack env.polls ≡ ok ack)
        × (new ≡ carry_forward ack lease)
        × ((dhcp_renew mac xid lease rebind env).sent ≡ renew_packet mac xid lease rebind ∷ [])
  unfolding dhcp_renew
  dhcp_renew-ok h = go env.socket env.bind env.send (recv_dhcp xid dhcp_ack env.polls) h
    where
      whole : DhcpResult DhcpLease → Trace DhcpLease
      whole r = record {
        sent = [];
        result = elim r [ ok ack ↦ ok (carry_forward ack lease) | failed e ↦ failed e ];
      }

      run : Option ℕ → Option ℕ → Option ℕ → DhcpResult DhcpLease → Trace DhcpLease
      run s b t r = unless_fails s socket_failed (
          unless_fails b bind_failed (send_or_fail t (renew_packet mac xid lease rebind) (whole r)))

      go :
          (s b t : Option ℕ) (r : DhcpResult DhcpLease)
          → (run s b t r).result ≡ ok new
          → (ack : DhcpLease) × (r ≡ ok ack)
            × (new ≡ carry_forward ack lease)
            × ((run s b t r).sent ≡ renew_packet mac xid lease rebind ∷ [])
      go (some n) b t r k = cc
      go none (some n) t r k = cc
      go none none (some n) r k = cc
      go none none none (failed e) k = cc
      go none none none (ok ack) k = (ack, refl, cc k, refl)

  -- A complete lease stays complete when it is renewed.
  pub dhcp_renew-IsComplete :
      IsComplete lease → (dhcp_renew mac xid lease rebind env).result ≡ ok new → IsComplete new
  dhcp_renew-IsComplete u h =
      let (ack, acked, e, _) = dhcp_renew-ok h in
      subst IsComplete (sym e) (
        carry_forward-IsComplete ack lease (recv_dhcp-IsWellFormed xid dhcp_ack ack env.polls acked)
          u)

  -- A renewal never turns an address into the unspecified one.
  pub dhcp_renew-is_unspecified :
      is_unspecified lease.ip ≡ false
      → (dhcp_renew mac xid lease rebind env).result ≡ ok new
      → is_unspecified new.ip ≡ false
  unfolding carry_forward
  dhcp_renew-is_unspecified u h =
      let (ack, acked, e, _) = dhcp_renew-ok h in
      subst (λ l. is_unspecified l.ip ≡ false) (sym e) (ground (arith, u))
