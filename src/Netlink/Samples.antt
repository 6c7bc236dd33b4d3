-- ===== src/Netlink/Samples.antt =====
-- Runs of the RTNETLINK client on small inputs, and its theorems there.
use asterkube.Prelude.{
  ℕ, suc, ◌+◌, ◌≤◌, ◌<◌, ◌%◌, ◌^◌, ◌≡◌, ◌↔◌, ◌⊎◌, inl, inr, refl, List, [], ◌∷◌, ◌++◌, Option, none,
  some, arith, All, length, drop,
}
use asterkube.Prelude.Words.{Bytes, put_u32}
use asterkube.Prelude.Text.{codes}
use asterkube.Netlink.Attr.{RouteAttr, parsed, nl_attr, nl_align, parse_attrs}
use asterkube.Netlink.Attr.RoundTrip.{encode_attrs, parse_attrs-encode_attrs}
use asterkube.Netlink.Message.{
  NlMessage, Recv, received, ok, frame, parse_messages, recv_ack, ack_of, recv_loop, parse_datagram,
  message_of,
}
use asterkube.Netlink.Message.Waiting.{Acked, recv_ack-ok_iff}
use asterkube.Netlink.Socket.{NlSocket, Reply}
use asterkube.Netlink.Requests.{
  ifla_ifname, ifla_linkinfo, ifla_master, veth_info_peer, peer_body, veth_on_bridge_body,
  default_route_body,
}
use asterkube.Netlink.Requests.Reading.{Reads, info_attrs, peer_attrs, veth_on_bridge_body-Reads}

abbrev eth0 : Bytes
eth0 = codes "eth0"

abbrev two_attrs : List RouteAttr
two_attrs =
    record { kind = 3; value = eth0 ++ 0 ∷ [] } ∷ record { kind = 19; value = put_u32 4242 } ∷ []

attrs_written :
    encode_attrs two_attrs
    ≡ 9 ∷ 0 ∷ 3 ∷ 0 ∷ 101 ∷ 116 ∷ 104 ∷ 48 ∷ 0 ∷ 0 ∷ 0 ∷ 0 ∷ 8 ∷ 0 ∷ 19 ∷ 0 ∷ 146 ∷ 16 ∷ 0 ∷ 0 ∷ []
unfolding nl_attr nl_align asterkube.Prelude.Bits.and_not
attrs_written = refl

parse_attrs-encode_attrs_example : parse_attrs 2 (encode_attrs two_attrs) ≡ parsed two_attrs
parse_attrs-encode_attrs_example = parse_attrs-encode_attrs two_attrs 2 (omega arith) (omega arith)

abbrev ack_body : Bytes
ack_body = 0 ∷ 0 ∷ 0 ∷ 0 ∷ []

-- A message of another request, and then the acknowledgment of number 7.
abbrev two_replies : List Recv
two_replies =
    received (frame 2 0 6 99 (1 ∷ 0 ∷ 0 ∷ 0 ∷ [])) ∷ received (frame 2 0 7 99 ack_body) ∷ []

recv_ack-ok_iff_example : (recv_ack 7 two_replies ≡ ok tt) ↔ Acked 7 two_replies
recv_ack-ok_iff_example = recv_ack-ok_iff 7 two_replies

acknowledged_run : recv_ack 7 two_replies ≡ ok tt
unfolding recv_ack recv_loop ack_of parse_datagram parse_messages message_of frame nl_align
    asterkube.Prelude.Bits.and_not
acknowledged_run = refl

abbrev socket : NlSocket
socket = record { fd = 3; seq = 6; pid = 99 }

abbrev no_reply : Reply
no_reply = record { send_error = none; arrives = [] }

veth_on_bridge_body-Reads_example :
    Reads (drop 16 (veth_on_bridge_body (codes "veth-web") eth0 4242 7)) (
      record { kind = ifla_ifname; value = codes "veth-web" ++ 0 ∷ [] }
      ∷ record { kind = ifla_linkinfo; value = encode_attrs (info_attrs eth0 4242) }
      ∷ record { kind = ifla_master; value = put_u32 7 }
      ∷ [])
    × Reads (encode_attrs (info_attrs eth0 4242)) (info_attrs eth0 4242)
    × Reads
        (nl_attr veth_info_peer (peer_body eth0 4242))
        (record { kind = veth_info_peer; value = peer_body eth0 4242 } ∷ [])
    × Reads (drop 16 (peer_body eth0 4242)) (peer_attrs eth0 4242)
veth_on_bridge_body-Reads_example =
    veth_on_bridge_body-Reads (codes "veth-web") eth0 4242 7 (omega arith) (omega arith)

abbrev gateway : Bytes
gateway = 10 ∷ 0 ∷ 2 ∷ 2 ∷ []

abbrev route : NlMessage
route = record {
  msg_type = 24;
  flags = 0;
  seq = 7;
  pid = 99;
  body = default_route_body gateway 2;
  spare = [];
}
