-- ===== src/Netlink/Requests/Addressing.antt =====
-- The address and route requests: what is refused, what is sent, and what is read back.
use asterkube.Prelude.{
  ℕ, ◌+◌, ◌≤◌, ◌≡◌, refl, ◌%◌, ◌^◌, List, [], ◌∷◌, Option, none, some, arith, length, drop, get_or,
  le→ltb,
}
use asterkube.Prelude.Words.{Bytes, put_u32}
use asterkube.Inet.{Ip, to4, to4-length}
use asterkube.Netlink.Attr.{RouteAttr, nl_attr_u32, parsed, parse_attrs}
use asterkube.Netlink.Attr.RoundTrip.{parse_attrs-encode_attrs}
use asterkube.Netlink.Message.{NlMessage, ok, not_ipv4, rtm_newaddr, frame}
use asterkube.Netlink.Socket.{NlSocket, Reply, Exchange, request, next_seq}
use asterkube.Netlink.Dump.{gateway_entry, gateway_attr, attrs_of}
use asterkube.Netlink.Requests.{
  addr_body, default_route_body, add_addr_v4, create_replace_flags, ifa_local, ifa_address,
  rta_gateway, rta_oif,
}
use asterkube.Netlink.Requests.Reading.{Reads, Reads-encode_attrs}

-- Whether a request goes out: only for an address that `To4` accepts, and then exactly one frame
-- goes out, under the next sequence number.
abbrev pub GoesOut :
    Option Bytes → NlSocket → Exchange (Unit {0}) → ℕ → ℕ → (Bytes → Bytes) → Type 0
GoesOut none s x msg_type flags body = (x.socket ≡ s) × (x.sent ≡ []) × (x.result ≡ not_ipv4)
GoesOut (some v4) s x msg_type flags body =
    (x.socket ≡ next_seq s)
    × (x.sent ≡ frame msg_type flags ((s.seq + 1) % 2 ^ 32) s.pid (body v4) ∷ [])

-- addAddrV4 refuses an address that has no IPv4 form before anything is sent and with the counter
-- untouched; any other goes out in exactly one frame, under the next sequence number.
pub add_addr_v4-GoesOut :
    (s : NlSocket) (ifindex prefix : ℕ) (ip : Ip) (reply : Reply)
    → GoesOut
        (to4 ip)
        s
        (add_addr_v4 s ifindex ip prefix reply)
        rtm_newaddr
        create_replace_flags
        (λ v4. addr_body ifindex v4 prefix)
unfolding add_addr_v4 request
add_addr_v4-GoesOut s ifindex prefix ip reply = go (to4 ip) refl
  where
    go :
        (o : Option Bytes)
        → to4 ip ≡ o
        → GoesOut o s
            (add_addr_v4 s ifindex ip prefix reply)
            rtm_newaddr
            create_replace_flags
            (λ v4. addr_body ifindex v4 prefix)
    go none e = rw (e, add_addr_v4) (refl, refl, refl)
    go (some v4) e = rw (e, add_addr_v4) (refl, refl)

-- The address request carries the four bytes as IFA_LOCAL and as IFA_ADDRESS, and only those.
addr_body-Reads :
    (ifindex prefix : ℕ) (ip v4 : Bytes)
    → to4 ip ≡ some v4
    → Reads
        (drop 8 (addr_body ifindex v4 prefix))
        (record { kind = ifa_local; value = v4 } ∷ record { kind = ifa_address; value = v4 } ∷ [])
unfolding addr_body
addr_body-Reads ifindex prefix ip v4 h =
    Reads-encode_attrs
      (record { kind = ifa_local; value = v4 } ∷ record { kind = ifa_address; value = v4 } ∷ [])
      (omega (arith, to4-length ip v4 h))

attrs_of-parse :
    (fixed : ℕ) (m : NlMessage) {attrs : List RouteAttr}
    → fixed ≤ length m.body
    → parse_attrs (length m.body) (drop fixed m.body) ≡ parsed attrs
    → attrs_of fixed m ≡ parsed attrs
unfolding attrs_of
attrs_of-parse fixed m h e = ground arith

abbrev route_attrs : Bytes → ℕ → List RouteAttr
route_attrs v4 ifindex =
    record { kind = rta_gateway; value = v4 }
    ∷ record { kind = rta_oif; value = put_u32 ifindex }
    ∷ []

route_read :
    (m : NlMessage) (v4 : Bytes) (ifindex : ℕ)
    → length v4 ≡ 4
    → m.body ≡ default_route_body v4 ifindex
    → (attrs_of 12 m ≡ parsed (route_attrs v4 ifindex))
      × (12 ≤ length m.body)
      × (get_or m.body 1 0 ≡ 0)
unfolding default_route_body nl_attr_u32
route_read m v4 ifindex four e =
    let long : 12 ≤ length m.body = rw e (omega arith) in
    (
      attrs_of-parse 12 m long
          (rw e (parse_attrs-encode_attrs (route_attrs v4 ifindex) _ (omega arith) (omega arith))),
      long,
      rw e,
    )

-- The route that addDefaultRouteV4 asks for is a default route that defaultRouteGateway reads back:
-- on a message with the request's body it answers the gateway's four bytes.
pub gateway_entry-default_route_body :
    (m : NlMessage) (gw v4 : Bytes) (ifindex : ℕ)
    → to4 gw ≡ some v4
    → m.body ≡ default_route_body v4 ifindex
    → gateway_entry m ≡ some (ok v4)
unfolding gateway_entry gateway_attr
gateway_entry-default_route_body m gw v4 ifindex h e =
    let four = to4-length gw v4 h in
    let (attrs, long, zero_len) = route_read m v4 ifindex four e in
    rw (attrs, zero_len, four, le→ltb _ _ long)
