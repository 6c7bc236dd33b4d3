-- ===== src/Dhcp/Receive/Answers.antt =====
-- Which datagram recvDHCP answers with.
use asterkube.Prelude.{
  ℕ, ◌≤◌, ◌≡◌, ◌↔◌, ◌⊎◌, inl, inr, refl, List, [], ◌∷◌, Option, none, some, length, get_or, arith,
  Option-cases,
}
use asterkube.Prelude.Words.{Bytes}
use asterkube.Dhcp.Packet.{bootp_reply}
use asterkube.Dhcp.Options.{DhcpLease, new_lease, parse_options}
use asterkube.Dhcp.Receive.{
  Poll, would_block, recv_error, datagram, ok, lease_of, recv_dhcp, cut_to_buffer, packet_xid,
  packet_yiaddr, packet_options,
}

-- A BOOTP reply of at least a header's length to this transaction, whose options, as parseOptions
-- reads them, name the wanted type and make up this lease.
pub record IsAnswer (xid want : ℕ) (pkt : Bytes) (lease : DhcpLease) : Type 0 where
  pub long : 240 ≤ length pkt
  pub reply : get_or pkt 0 0 ≡ bootp_reply
  pub transaction : packet_xid pkt ≡ xid
  pub wanted : (parse_options (packet_options pkt) (new_lease (packet_yiaddr pkt))).msg_type ≡ want
  pub holds : (parse_options (packet_options pkt) (new_lease (packet_yiaddr pkt))).lease ≡ lease

module _ (xid want : ℕ) (pkt : Bytes) (lease : DhcpLease) where
  lease_of→IsAnswer : lease_of xid want pkt ≡ some lease → IsAnswer xid want pkt lease
  unfolding lease_of
  lease_of→IsAnswer h = record {
    long = ground arith;
    reply = ground arith;
    transaction = ground arith;
    wanted = ground arith;
    holds = ground arith;
  }

  IsAnswer→lease_of : IsAnswer xid want pkt lease → lease_of xid want pkt ≡ some lease
  unfolding lease_of
  IsAnswer→lease_of a = ground arith

-- What the loop ends with before it sees `lease`: polls that would block, and datagrams that answer
-- nothing.
abbrev pub Answered : ℕ → ℕ → DhcpLease → List Poll → Type 0
Answered xid want lease [] = ⊥
Answered xid want lease (would_block ∷ more) = Answered xid want lease more
Answered xid want lease (recv_error e ∷ more) = ⊥
Answered xid want lease (datagram d ∷ more) =
    IsAnswer xid want (cut_to_buffer d) lease
    ⊎ (((other : DhcpLease) → ¬ (IsAnswer xid want (cut_to_buffer d) other))
        × Answered xid want lease more)

recv_dhcp→Answered :
    (xid want : ℕ) (lease : DhcpLease) (polls : List Poll)
    → recv_dhcp xid want polls ≡ ok lease
    → Answered xid want lease polls
unfolding recv_dhcp
recv_dhcp→Answered xid want lease [] h = cc
recv_dhcp→Answered xid want lease (would_block ∷ more) h = recv_dhcp→Answered xid want lease more h
recv_dhcp→Answered xid want lease (recv_error e ∷ more) h = cc
recv_dhcp→Answered xid want lease (datagram d ∷ more) h =
    go (lease_of xid want (cut_to_buffer d)) refl h (recv_dhcp→Answered xid want lease more)
  where
    go :
        (o : Option DhcpLease)
        → lease_of xid want (cut_to_buffer d) ≡ o
        → elim o [ some found ↦ ok found | none ↦ recv_dhcp xid want more ] ≡ ok lease
        → (recv_dhcp xid want more ≡ ok lease → Answered xid want lease more)
        → Answered xid want lease (datagram d ∷ more)
    go none e k ih =
        inr ((λ other a. cc (e, IsAnswer→lease_of xid want (cut_to_buffer d) other a)), ih k)
    go (some found) e k ih = inl (lease_of→IsAnswer xid want (cut_to_buffer d) lease (cc (e, k)))

no_answer :
    (xid want : ℕ) (pkt : Bytes)
    → ((other : DhcpLease) → ¬ (IsAnswer xid want pkt other))
    → lease_of xid want pkt ≡ none
no_answer xid want pkt h = elim (Option-cases (lease_of xid want pkt)) [
  | inl e ↦ e
  | inr (found, e) ↦ absurd (h found (lease_of→IsAnswer xid want pkt found e))
]

Answered→recv_dhcp :
    (xid want : ℕ) (lease : DhcpLease) (polls : List Poll)
    → Answered xid want lease polls
    → recv_dhcp xid want polls ≡ ok lease
unfolding recv_dhcp
Answered→recv_dhcp xid want lease [] h = elim h [ ]
Answered→recv_dhcp xid want lease (would_block ∷ more) h = Answered→recv_dhcp xid want lease more h
Answered→recv_dhcp xid want lease (recv_error e ∷ more) h = elim h [ ]
Answered→recv_dhcp xid want lease (datagram d ∷ more) (inl a) =
    rw (IsAnswer→lease_of xid want (cut_to_buffer d) lease a, recv_dhcp)
Answered→recv_dhcp xid want lease (datagram d ∷ more) (inr (n, h)) =
    rw (no_answer xid want (cut_to_buffer d) n, recv_dhcp)
      (Answered→recv_dhcp xid want lease more h)

-- recvDHCP returns a lease exactly when, before the deadline and before any receive error, the first
-- datagram that is a BOOTP reply of full length to this transaction and of the wanted type holds that
-- lease; every other datagram is passed over.
pub recv_dhcp-ok_iff :
    (xid want : ℕ) (lease : DhcpLease) (polls : List Poll)
    → (recv_dhcp xid want polls ≡ ok lease) ↔ Answered xid want lease polls
recv_dhcp-ok_iff xid want lease polls =
    (recv_dhcp→Answered xid want lease polls, Answered→recv_dhcp xid want lease polls)
