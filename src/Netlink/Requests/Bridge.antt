-- ===== src/Netlink/Requests/Bridge.antt =====
-- createBridge from the call to what a receiver of the datagram finds in it.
use asterkube.Prelude.{
  ◌+◌, ◌≤◌, ◌<◌, ◌≡◌, refl, ◌%◌, ◌^◌, [], ◌∷◌, ◌++◌, arith, length, drop, length-append,
}
use asterkube.Prelude.Words.{Bytes}
use asterkube.Prelude.Text.{codes}
use asterkube.Netlink.Attr.{nl_attr, nl_attr_str, parsed, nl_align}
use asterkube.Netlink.Attr.RoundTrip.{length-nl_attr, nl_align_lem}
use asterkube.Netlink.Message.{rtm_newlink, frame, parse_messages}
use asterkube.Netlink.Message.Framing.{FrameFits, framed, parse_messages-one}
use asterkube.Netlink.Socket.{NlSocket, Reply, request}
use asterkube.Netlink.Requests.{
  create_bridge, bridge_body, create_excl_flags, ifla_ifname, ifla_linkinfo, ifla_info_kind,
}
use asterkube.Netlink.Requests.Reading.{Reads, Reads-encode_attrs, Reads-nl_attr}

pub bridge_info : Bytes
bridge_info = nl_attr ifla_info_kind (codes "bridge" ++ 0 ∷ [])

length-bridge_info : length bridge_info ≡ 12
unfolding bridge_info
length-bridge_info =
    omega (arith, length-nl_attr ifla_info_kind (codes "bridge" ++ 0 ∷ []), nl_align_lem 11)

length-bridge_body :
    (name : Bytes)
    → length name ≤ 15
    → (length (bridge_body name) % 4 ≡ 0) × (length (bridge_body name) ≤ 60)
unfolding bridge_body nl_attr_str bridge_info
length-bridge_body name h =
    let n = name ++ 0 ∷ [] in
    let a = nl_attr ifla_ifname n in
    let b = nl_attr ifla_linkinfo bridge_info in
    let whole : length (bridge_body name)
        ≡ 16 + nl_align (4 + length n) + nl_align (4 + length bridge_info) =
      omega (
        arith,
        length-append a (b ++ []),
        length-append b [],
        length-nl_attr ifla_ifname n,
        length-nl_attr ifla_linkinfo bridge_info,
      ) in
    let size : length n ≤ 16 = omega (arith, length-append name (0 ∷ [])) in
    let left = nl_align_lem (4 + length n) in
    let right = nl_align_lem (4 + length bridge_info) in
    (omega (arith, whole, left, right), omega (arith, whole, size, length-bridge_info, left, right))

-- createBridge sends one datagram. A parser finds one message in it: RTM_NEWLINK with the create
-- and exclusive flags, the next sequence number and the socket's port, whose attributes are the
-- bridge's name and the link info, which says `bridge`. The counters are 32-bit words, and the name
-- has at most fifteen bytes.
pub create_bridge-Reads :
    (s : NlSocket) (name : Bytes) (reply : Reply)
    → length name ≤ 15
    → s.pid < 2 ^ 32
    → (d : Bytes) × ((create_bridge s name reply).sent ≡ d ∷ [])
      × ((rest : Bytes)
          → parse_messages (length d) d rest
            ≡ parsed (
                framed rtm_newlink create_excl_flags
                  ((s.seq + 1) % 2 ^ 32)
                  s.pid
                  (bridge_body name)
                  []
                  rest
                ∷ []))
      × Reads (drop 16 (bridge_body name)) (
          record { kind = ifla_ifname; value = name ++ 0 ∷ [] }
          ∷ record { kind = ifla_linkinfo; value = bridge_info }
          ∷ [])
      × Reads bridge_info (record { kind = ifla_info_kind; value = codes "bridge" ++ 0 ∷ [] } ∷ [])
unfolding create_bridge request
create_bridge-Reads s name reply h hp =
    let (aligned, small) = length-bridge_body name h in
    let seq = (s.seq + 1) % 2 ^ 32 in
    let body = bridge_body name in
    let d = frame rtm_newlink create_excl_flags seq s.pid body in
    let fits : FrameFits rtm_newlink create_excl_flags seq s.pid body = record {
      type_fits = omega arith;
      flags_fit = omega arith;
      seq_fits = omega arith;
      pid_fits = omega arith;
      length_fits = omega arith;
    } in
    (
      d,
      refl,
      λ rest. parse_messages-one rtm_newlink create_excl_flags seq s.pid body rest fits aligned,
      unfold bridge_body nl_attr_str bridge_info in
          Reads-encode_attrs
            (record { kind = ifla_ifname; value = name ++ 0 ∷ [] }
              ∷ record { kind = ifla_linkinfo; value = bridge_info }
              ∷ [])
            (omega (arith, length-append name (0 ∷ []), length-bridge_info)),
      unfold bridge_info in
          Reads-nl_attr ifla_info_kind (codes "bridge" ++ 0 ∷ []) (omega arith) (omega arith),
    )
