-- ===== src/Dhcp/Client.antt =====
-- The exchanges of cmd/asterkube-init/dhcp_linux.go: dhcpAcquire (DISCOVER, OFFER, REQUEST, ACK) and
-- dhcpRenew.
pub mod Acquire
pub mod Renew
use asterkube.Prelude.{
  ℕ, zero, suc, not, ◌||◌, Bool, true, List, [], ◌∷◌, ◌++◌, Option, none, some, ◌==◌, if◌then◌else◌,
}
use asterkube.Prelude.Words.{Bytes}
use asterkube.Inet.{Ip, is_nil, is_unspecified}
use asterkube.Dhcp.Packet.{build_dhcp, given_v4, dhcp_discover, dhcp_offer, dhcp_request, dhcp_ack}
use asterkube.Dhcp.Options.{DhcpLease}
use asterkube.Dhcp.Receive.{
  Poll, DhcpError, DhcpResult, ok, failed, socket_failed, bind_failed, send_failed, no_offer,
  recv_dhcp,
}

-- The error of a system call, where it fails.
abbrev pub Fails : Type 0
Fails = Option ℕ

-- A datagram handed to Sendto: the destination's four bytes, port 67, and the packet.
pub record Sent : Type 0 where
  pub dst : Bytes
  pub packet : Bytes

pub record Trace (A : Type 0) : Type 0 where
  pub sent : List Sent
  pub result : DhcpResult A

abbrev pub stop : {A : Type 0} → DhcpError → Trace A
stop e = record { sent = []; result = failed e }

abbrev pub after : {A : Type 0} → Sent → Trace A → Trace A
after s t = record t { sent = s ∷ t.sent }

abbrev pub broadcast_dst : Bytes
broadcast_dst = 255 ∷ 255 ∷ 255 ∷ 255 ∷ []

-- What happens to the socket of one exchange: each call's error, and the polls of each wait.
pub record AcquireEnv : Type 0 where
  pub socket : Fails
  pub bind : Fails
  pub discover_send : ℕ → Fails
  pub discover_polls : ℕ → List Poll
  pub request_send : Fails
  pub request_polls : List Poll

-- `s, err := f(); if err != nil { return nil, … }`
abbrev pub unless_fails : {A : Type 0} → Fails → (ℕ → DhcpError) → Trace A → Trace A
unless_fails none e t = t
unless_fails (some n) e t = stop (e n)

-- `if err := Sendto(…); err != nil { return … }`: the packet was handed over either way.
abbrev pub send_or_fail : {A : Type 0} → Fails → Sent → Trace A → Trace A
send_or_fail none s t = after s t
send_or_fail (some n) s t = after s (stop (send_failed n))

-- `if len(ack.dns) == 0 { ack.dns = other }`
unfoldable pub or_dns : List Ip → List Ip → List Ip
or_dns [] other = other
or_dns (d ∷ ds) other = d ∷ ds

-- `ack.mask = offer.mask` where it is nil, and so on; the server id and the lease time are not merged.
unfoldable pub merge_offer : DhcpLease → DhcpLease → DhcpLease
merge_offer ack offer =
    let mask = if is_nil ack.mask then offer.mask else ack.mask in
    record ack {
      mask = if is_nil mask then 255 ∷ 255 ∷ 255 ∷ 0 ∷ [] else mask;
      gateway = if is_nil ack.gateway then offer.gateway else ack.gateway;
      dns = or_dns ack.dns offer.dns;
    }

-- One exchange, and the next with its result.
abbrev pub then_trace : {A B : Type 0} → Trace A → (A → Trace B) → Trace B
then_trace t k = elim t.result [
  | ok a ↦ record { sent = t.sent ++ (k a).sent; result = (k a).result }
  | failed e ↦ record { sent = t.sent; result = failed e }
]

module _ (mac : Bytes) (xid : ℕ) where
  unfoldable pub discover_packet : Sent
  discover_packet = record {
    dst = broadcast_dst;
    packet = build_dhcp dhcp_discover mac xid [] [] [] true;
  }

  -- The REQUEST of the offered address, with the server's id.
  unfoldable pub select_packet : DhcpLease → Sent
  select_packet offer = record {
    dst = broadcast_dst;
    packet = build_dhcp dhcp_request mac xid [] offer.ip offer.server_id true;
  }

  -- `for try := 0; try < 3 && offer == nil; try++`, with the number of tries left and the try's number.
  -- An error of the wait leaves `offer` nil.
  unfoldable pub discover_loop : (ℕ → Fails) → (ℕ → List Poll) → ℕ → ℕ → Trace DhcpLease
  discover_loop sends polls zero try = stop no_offer
  discover_loop sends polls (suc left) try =
      let again = discover_loop sends polls left (suc try) in
      send_or_fail (sends try) discover_packet (elim (recv_dhcp xid dhcp_offer (polls try)) [
        | ok offer ↦ record { sent = []; result = ok offer }
        | failed e ↦ again
      ])

  unfoldable pub select : Fails → List Poll → DhcpLease → Trace DhcpLease
  select send polls offer = send_or_fail send (select_packet offer) (record {
    sent = [];
    result = elim (recv_dhcp xid dhcp_ack polls) [
      | ok ack ↦ ok (merge_offer ack offer)
      | failed e ↦ failed e
    ];
  })

  unfoldable pub dhcp_acquire : AcquireEnv → Trace DhcpLease
  dhcp_acquire env = unless_fails env.socket socket_failed (
      unless_fails env.bind bind_failed (
        then_trace (discover_loop env.discover_send env.discover_polls 3 0)
          (select env.request_send env.request_polls)))

pub record RenewEnv : Type 0 where
  pub socket : Fails
  pub bind : Fails
  pub send : Fails
  pub polls : List Poll

-- Where a renewal goes: to the leasing server, or to everybody.
unfoldable pub renew_dst : DhcpLease → Bool → Bytes
renew_dst lease rebind =
    if not rebind
    then elim (given_v4 lease.server_id) [ some v4 ↦ v4 | none ↦ broadcast_dst ]
    else broadcast_dst

unfoldable pub renew_packet : Bytes → ℕ → DhcpLease → Bool → Sent
renew_packet mac xid lease rebind = record {
  dst = renew_dst lease rebind;
  packet = build_dhcp dhcp_request mac xid lease.ip [] [] rebind;
}

-- What the ACK leaves out is carried forward.
unfoldable pub carry_forward : DhcpLease → DhcpLease → DhcpLease
carry_forward ack lease = record {
  ip = if is_nil ack.ip || is_unspecified ack.ip then lease.ip else ack.ip;
  mask = if is_nil ack.mask then lease.mask else ack.mask;
  gateway = if is_nil ack.gateway then lease.gateway else ack.gateway;
  dns = or_dns ack.dns lease.dns;
  server_id = if is_nil ack.server_id then lease.server_id else ack.server_id;
  lease_sec = if ack.lease_sec == 0 then lease.lease_sec else ack.lease_sec;
}

unfoldable pub dhcp_renew : Bytes → ℕ → DhcpLease → Bool → RenewEnv → Trace DhcpLease
dhcp_renew mac xid lease rebind env = unless_fails env.socket socket_failed (
    unless_fails env.bind bind_failed (
      send_or_fail env.send (renew_packet mac xid lease rebind) (record {
        sent = [];
        result = elim (recv_dhcp xid dhcp_ack env.polls) [
          | ok ack ↦ ok (carry_forward ack lease)
          | failed e ↦ failed e
        ];
      })))
