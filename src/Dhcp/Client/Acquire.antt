-- ===== src/Dhcp/Client/Acquire.antt =====
-- What a lease from dhcpAcquire of cmd/asterkube-init/dhcp_linux.go has behind it.
use asterkube.Prelude.{
  ℕ, zero, suc, ◌+◌, ◌≤◌, ◌<◌, ◌≡◌, refl, ap, ◌∙◌, List, [], ◌∷◌, ◌++◌, Option, none, some, arith,
  replicate,
}
use asterkube.Prelude.Words.{Bytes}
use asterkube.Dhcp.Packet.{dhcp_offer, dhcp_ack}
use asterkube.Dhcp.Options.{DhcpLease}
use asterkube.Dhcp.Receive.{Poll, DhcpResult, ok, failed, recv_dhcp, socket_failed, bind_failed}
use asterkube.Dhcp.Client.{
  Sent, Trace, AcquireEnv, unless_fails, send_or_fail, merge_offer, discover_packet, select_packet,
  discover_loop, select, dhcp_acquire,
}

module _ (mac : Bytes) (xid : ℕ) (sends : ℕ → Option ℕ) (polls : ℕ → List Poll) where
  -- The first of `left` tries, from `try` on, that gets this offer; all packets up to it are DISCOVERs.
  record OfferedAt (left try : ℕ) (offer : DhcpLease) (sent : List Sent) : Type 0 where
    k : ℕ
    within : k < left
    offered : recv_dhcp xid dhcp_offer (polls (try + k)) ≡ ok offer
    sent_only : sent ≡ replicate (suc k) (discover_packet mac xid)

  abbrev round : ℕ → ℕ → Option ℕ → DhcpResult DhcpLease → Trace DhcpLease
  round left try s r = send_or_fail s (discover_packet mac xid) (elim r [
    | ok o ↦ record { sent = []; result = ok o }
    | failed e ↦ discover_loop mac xid sends polls left (suc try)
  ])

  round-OfferedAt :
      (left try : ℕ) (offer : DhcpLease) (s : Option ℕ) (r : DhcpResult DhcpLease)
      → recv_dhcp xid dhcp_offer (polls try) ≡ r
      → (round left try s r).result ≡ ok offer
      → ((discover_loop mac xid sends polls left (suc try)).result ≡ ok offer
          → OfferedAt left (suc try) offer (discover_loop mac xid sends polls left (suc try)).sent)
      → OfferedAt (suc left) try offer (round left try s r).sent
  round-OfferedAt left try offer (some n) r er h ih = cc
  round-OfferedAt left try offer none (ok o) er h ih = record {
    k = 0;
    within = omega arith;
    offered = let e : try + 0 ≡ try = omega arith in rw e (er ∙ h);
    sent_only = refl;
  }
  round-OfferedAt left try offer none (failed e) er h ih =
      let p = ih h in
      let shift : try + suc p.k ≡ suc try + p.k = omega arith in
      record {
        k = suc p.k;
        within = omega (arith, p.within);
        offered = rw shift p.offered;
        sent_only = ap (λ t. discover_packet mac xid ∷ t) p.sent_only;
      }

  discover_loop-OfferedAt :
      (left try : ℕ) (offer : DhcpLease)
      → (discover_loop mac xid sends polls left try).result ≡ ok offer
      → OfferedAt left try offer (discover_loop mac xid sends polls left try).sent
  unfolding discover_loop
  discover_loop-OfferedAt zero try offer h = cc
  discover_loop-OfferedAt (suc left) try offer h =
      round-OfferedAt left try offer (sends try) (recv_dhcp xid dhcp_offer (polls try)) refl h
        (discover_loop-OfferedAt left (suc try) offer)

  -- Whatever comes of it, at most `left` packets go out, and all are DISCOVERs.
  discover_loop-sent :
      (left try : ℕ)
      → (n : ℕ) × (n ≤ left)
        × ((discover_loop mac xid sends polls left try).sent
            ≡ replicate n (discover_packet mac xid))
  unfolding discover_loop
  discover_loop-sent zero try = (0, omega arith, refl)
  discover_loop-sent (suc left) try =
      go (sends try) (recv_dhcp xid dhcp_offer (polls try)) (discover_loop-sent left (suc try))
    where
      go :
          (s : Option ℕ) (r : DhcpResult DhcpLease)
          → ((n : ℕ) × (n ≤ left)
              × ((discover_loop mac xid sends polls left (suc try)).sent
                  ≡ replicate n (discover_packet mac xid)))
          → (n : ℕ) × (n ≤ suc left)
            × ((round left try s r).sent ≡ replicate n (discover_packet mac xid))
      go (some e) r ih = (1, omega arith, refl)
      go none (ok o) ih = (1, omega arith, refl)
      go none (failed e) (n, h, p) = (suc n, omega arith, ap (λ t. discover_packet mac xid ∷ t) p)

-- The way to a lease: the OFFER of one of three tries, and the ACK of the request for it.
pub record Acquired (mac : Bytes) (xid : ℕ) (env : AcquireEnv) (lease : DhcpLease)
    (sent : List Sent) : Type 0 where
  pub tries : ℕ
  pub offer : DhcpLease
  pub ack : DhcpLease
  pub within : tries < 3
  pub offered : recv_dhcp xid dhcp_offer (env.discover_polls tries) ≡ ok offer
  pub acked : recv_dhcp xid dhcp_ack env.request_polls ≡ ok ack
  pub merged : lease ≡ merge_offer ack offer
  pub order :
      sent ≡ replicate (suc tries) (discover_packet mac xid) ++ select_packet mac xid offer ∷ []

module _ (mac : Bytes) (xid : ℕ) (env : AcquireEnv) (lease : DhcpLease) where
  abbrev first : Trace DhcpLease
  first = discover_loop mac xid env.discover_send env.discover_polls 3 0

  select-Acquired :
      (offer : DhcpLease) (s : Option ℕ) (r : DhcpResult DhcpLease)
      → OfferedAt mac xid env.discover_send env.discover_polls 3 0 offer first.sent
      → recv_dhcp xid dhcp_ack env.request_polls ≡ r
      → (send_or_fail s (select_packet mac xid offer) (record {
        sent = [];
        result = elim r [ ok ack ↦ ok (merge_offer ack offer) | failed e ↦ failed e ];
      })).result
        ≡ ok lease
      → Acquired mac xid env lease (
          first.sent
          ++ (send_or_fail s (select_packet mac xid offer) (record {
            sent = [];
            result = elim r [ ok ack ↦ ok (merge_offer ack offer) | failed e ↦ failed e ];
          })).sent)
  select-Acquired offer (some n) r o er h = cc
  select-Acquired offer none (failed e) o er h = cc
  select-Acquired offer none (ok ack) o er h = record {
    tries = o.k;
    offer = offer;
    ack = ack;
    within = o.within;
    offered = let e : 0 + o.k ≡ o.k = omega arith in rw e at o.offered;
    acked = er;
    merged = cc h;
    order = ap (λ t. t ++ select_packet mac xid offer ∷ []) o.sent_only;
  }

  -- A lease comes only after an OFFER, in one of three tries, and after the ACK of the REQUEST for that
  -- offer; the packets sent are the DISCOVERs of the tries made and then that REQUEST; and the lease is
  -- the ACK's, with what is merged from the offer.
  pub dhcp_acquire-Acquired :
      (dhcp_acquire mac xid env).result ≡ ok lease
      → Acquired mac xid env lease (dhcp_acquire mac xid env).sent
  unfolding dhcp_acquire select
  dhcp_acquire-Acquired h =
      go env.socket env.bind first.result
        (discover_loop-OfferedAt mac xid env.discover_send env.discover_polls 3 0) h
    where
      whole : DhcpResult DhcpLease → Trace DhcpLease
      whole r = elim r [
        | ok offer ↦ record {
          sent = first.sent ++ (select mac xid env.request_send env.request_polls offer).sent;
          result = (select mac xid env.request_send env.request_polls offer).result;
        }
        | failed e ↦ record { sent = first.sent; result = failed e }
      ]

      go :
          (s b : Option ℕ) (r : DhcpResult DhcpLease)
          → ((offer : DhcpLease)
              → r ≡ ok offer
              → OfferedAt mac xid env.discover_send env.discover_polls 3 0 offer first.sent)
          → (unless_fails s socket_failed (unless_fails b bind_failed (whole r))).result ≡ ok lease
          → Acquired mac xid env lease
              (unless_fails s socket_failed (unless_fails b bind_failed (whole r))).sent
      go (some n) b r o k = cc
      go none (some n) r o k = cc
      go none none (failed e) o k = cc
      go none none (ok offer) o k =
          select-Acquired offer env.request_send (recv_dhcp xid dhcp_ack env.request_polls)
            (o offer refl) refl k
