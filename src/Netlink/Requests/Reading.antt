-- ===== src/Netlink/Requests/Reading.antt =====
-- What the kernel reads from the requests, by the same attribute walk.
use asterkube.Prelude.{
  ℕ, ◌+◌, ◌≤◌, ◌<◌, ◌≡◌, refl, List, [], ◌∷◌, ◌++◌, arith, All, length, drop, length-append,
  replicate, append-nil,
}
use asterkube.Prelude.Words.{Bytes, put_u32}
use asterkube.Prelude.Text.{codes}
use asterkube.Netlink.Attr.{nl_attr, nl_attr_str, nl_attr_u32, RouteAttr, parsed, parse_attrs}
use asterkube.Netlink.Attr.RoundTrip.{
  encode_attrs, AttrFits, parse_attrs-encode_attrs, length-nl_attr, nl_align_lem,
}
use asterkube.Netlink.Requests.{
  peer_body, veth_link_info, veth_on_bridge_body, ifla_ifname, ifla_master, ifla_linkinfo,
  ifla_net_ns_pid, ifla_info_kind, ifla_info_data, veth_info_peer,
}

abbrev attr : ℕ → Bytes → RouteAttr
attr kind value = record { kind = kind; value = value }

-- The attributes that a peer's description, a veth's link info and a request for a veth carry.
abbrev pub peer_attrs : Bytes → ℕ → List RouteAttr
peer_attrs peer pid = attr ifla_ifname (peer ++ 0 ∷ []) ∷ attr ifla_net_ns_pid (put_u32 pid) ∷ []

abbrev pub info_attrs : Bytes → ℕ → List RouteAttr
info_attrs peer pid =
    attr ifla_info_kind (codes "veth" ++ 0 ∷ [])
    ∷ attr ifla_info_data (nl_attr veth_info_peer (peer_body peer pid))
    ∷ []

module _ (peer : Bytes) (pid : ℕ) where
  peer_body-encode : peer_body peer pid ≡ replicate 16 0 ++ encode_attrs (peer_attrs peer pid)
  unfolding peer_body nl_attr_str nl_attr_u32
  peer_body-encode = refl

  link_info-encode :
      veth_link_info peer pid ≡ nl_attr ifla_linkinfo (encode_attrs (info_attrs peer pid))
  unfolding veth_link_info nl_attr_str
  link_info-encode = refl

  module _ (short : length peer ≤ 15) where
    length-peer_body : length (peer_body peer pid) ≤ 44
    length-peer_body = rw peer_body-encode (
        omega (
          arith,
          length-append (nl_attr ifla_ifname (peer ++ 0 ∷ []))
              (nl_attr ifla_net_ns_pid (put_u32 pid) ++ []),
          length-append (nl_attr ifla_net_ns_pid (put_u32 pid)) [],
          length-nl_attr ifla_ifname (peer ++ 0 ∷ []),
          length-nl_attr ifla_net_ns_pid (put_u32 pid),
          length-append peer (0 ∷ []),
          nl_align_lem (4 + length (peer ++ 0 ∷ [])),
          nl_align_lem 8,
        ))

    length-peer_attr : length (nl_attr veth_info_peer (peer_body peer pid)) ≤ 48
    length-peer_attr = omega (
      arith,
      length-nl_attr veth_info_peer (peer_body peer pid),
      nl_align_lem (4 + length (peer_body peer pid)),
      length-peer_body,
    )

    length-info : length (encode_attrs (info_attrs peer pid)) ≤ 72
    length-info = omega (
      arith,
      length-append (nl_attr ifla_info_kind (codes "veth" ++ 0 ∷ []))
          (nl_attr ifla_info_data (nl_attr veth_info_peer (peer_body peer pid)) ++ []),
      length-append (nl_attr ifla_info_data (nl_attr veth_info_peer (peer_body peer pid))) [],
      length-nl_attr ifla_info_kind (codes "veth" ++ 0 ∷ []),
      length-nl_attr ifla_info_data (nl_attr veth_info_peer (peer_body peer pid)),
      nl_align_lem (4 + length (nl_attr veth_info_peer (peer_body peer pid))),
      nl_align_lem 9,
      length-peer_attr,
    )

-- The walk over all of the bytes ends, and gives these attributes.
abbrev pub Reads : Bytes → List RouteAttr → Type 0
Reads b attrs = parse_attrs (length b) b ≡ parsed attrs

count-le-length : (attrs : List RouteAttr) → length attrs ≤ length (encode_attrs attrs)
count-le-length [] = omega arith
count-le-length (a ∷ attrs) = omega (
  arith,
  count-le-length attrs,
  length-append (nl_attr a.kind a.value) (encode_attrs attrs),
  length-nl_attr a.kind a.value,
  nl_align_lem (4 + length a.value),
)

pub Reads-encode_attrs :
    (attrs : List RouteAttr) → All AttrFits attrs → Reads (encode_attrs attrs) attrs
Reads-encode_attrs attrs h = parse_attrs-encode_attrs attrs _ h (count-le-length attrs)

pub Reads-nl_attr :
    (kind : ℕ) (value : Bytes)
    → kind < 65536
    → 4 + length value < 65536
    → Reads (nl_attr kind value) (attr kind value ∷ [])
Reads-nl_attr kind value h k =
    rw (append-nil (nl_attr kind value)) at (Reads-encode_attrs (attr kind value ∷ []) ((h, k), tt))

-- A veth pair whose host end becomes a port of a bridge: the kernel reads from the request, behind
-- the empty ifinfomsg, the host end's name, the link info and the bridge's index as master; the
-- link info says `veth` and holds the peer, whose own attributes are its name and the process that
-- owns its namespace. The names have at most fifteen bytes, as the callers see to.
pub veth_on_bridge_body-Reads :
    (host peer : Bytes) (pid index : ℕ)
    → length host ≤ 15
    → length peer ≤ 15
    → Reads (drop 16 (veth_on_bridge_body host peer pid index)) (
        attr ifla_ifname (host ++ 0 ∷ [])
        ∷ attr ifla_linkinfo (encode_attrs (info_attrs peer pid))
        ∷ attr ifla_master (put_u32 index)
        ∷ [])
      × Reads (encode_attrs (info_attrs peer pid)) (info_attrs peer pid)
      × Reads
          (nl_attr veth_info_peer (peer_body peer pid))
          (attr veth_info_peer (peer_body peer pid) ∷ [])
      × Reads (drop 16 (peer_body peer pid)) (peer_attrs peer pid)
unfolding veth_on_bridge_body nl_attr_str nl_attr_u32 veth_link_info
veth_on_bridge_body-Reads host peer pid index hh hp = (
  Reads-encode_attrs
      (attr ifla_ifname (host ++ 0 ∷ [])
        ∷ attr ifla_linkinfo (encode_attrs (info_attrs peer pid))
        ∷ attr ifla_master (put_u32 index)
        ∷ [])
      (omega (arith, length-append host (0 ∷ []), length-info peer pid hp)),
  Reads-encode_attrs (info_attrs peer pid) (omega (arith, length-peer_attr peer pid hp)),
  Reads-nl_attr veth_info_peer (peer_body peer pid) (omega arith)
      (omega (arith, length-peer_body peer pid hp)),
  unfold peer_body in
      Reads-encode_attrs (peer_attrs peer pid) (omega (arith, length-append peer (0 ∷ []))),
)
