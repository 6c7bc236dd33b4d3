-- ===== src/Dhcp/Receive.antt =====
-- recvDHCP of cmd/asterkube-init/dhcp_linux.go: the poll loop that waits for a reply.
pub mod Answers
use asterkube.Prelude.{
  ℕ, ◌≡◌, not, ◌||◌, Bool, List, [], ◌∷◌, Option, none, some, take, drop, length, get_or, ltb, ◌==◌,
  if◌then◌else◌,
}
use asterkube.Prelude.Words.{Bytes, u32, slice}
use asterkube.Dhcp.Packet.{bootp_reply}
use asterkube.Dhcp.Options.{DhcpLease, new_lease, parse_options, u32_be}

-- One round of the loop that starts before the deadline: what Recvfrom gives. The clock is left out:
-- the list of polls ends where the deadline passes.
pub data Poll : Type 0 where
  would_block : Poll
  recv_error : ℕ → Poll
  datagram : Bytes → Poll

pub data DhcpError : Type 0 where
  socket_failed bind_failed send_failed recv_failed : ℕ → DhcpError
  timed_out no_offer : DhcpError

pub data DhcpResult {ℓ} (A : Type ℓ) : Type ℓ where
  ok : A → DhcpResult A
  failed : DhcpError → DhcpResult A

-- `buf[:n]` for the buffer of 1500 bytes, and the parts of a packet that are looked at:
-- `binary.BigEndian.Uint32(pkt[4:8])`, `pkt[16:20]` and `pkt[240:]`.
unfoldable pub cut_to_buffer : Bytes → Bytes
cut_to_buffer d = take 1500 d

unfoldable pub packet_xid : Bytes → ℕ
packet_xid pkt = u32_be (slice 4 4 pkt)

unfoldable pub packet_yiaddr : Bytes → Bytes
packet_yiaddr pkt = slice 16 4 pkt

unfoldable pub packet_options : Bytes → Bytes
packet_options pkt = drop 240 pkt

-- The lease of a packet that is a reply to `xid` of the wanted type.
unfoldable pub lease_of : ℕ → ℕ → Bytes → Option DhcpLease
lease_of xid want pkt =
    let w = parse_options (packet_options pkt) (new_lease (packet_yiaddr pkt)) in
    if ltb (length pkt) 240
    then none
    else if not (get_or pkt 0 0 == bootp_reply) || not (packet_xid pkt == xid)
    then none
    else if w.msg_type == want
    then some w.lease
    else none

unfoldable pub recv_dhcp : ℕ → ℕ → List Poll → DhcpResult DhcpLease
recv_dhcp xid want [] = failed timed_out
recv_dhcp xid want (would_block ∷ more) = recv_dhcp xid want more
recv_dhcp xid want (recv_error e ∷ more) = failed (recv_failed e)
recv_dhcp xid want (datagram d ∷ more) =
    let again = recv_dhcp xid want more in
    elim (lease_of xid want (cut_to_buffer d)) [ some lease ↦ ok lease | none ↦ again ]
