-- ===== src/Netlink/Requests.antt =====
-- The requests of cmd/asterkube-init/netlink_linux.go that change the kernel's state:
-- createVethPeerNetns, createBridge, createVethOnBridge, addAddrV4 and addDefaultRouteV4.
pub mod Reading
pub mod Bridge
pub mod Addressing
use asterkube.Prelude.{ℕ, ◌%◌, [], ◌∷◌, none, some, replicate, bit_or}
use asterkube.Prelude.Words.{Bytes, put_u32}
use asterkube.Prelude.Text.{codes}
use asterkube.Inet.{Ip, to4}
use asterkube.Netlink.Attr.{nl_attr, nl_attr_str, nl_attr_u32, concat}
use asterkube.Netlink.Message.{not_ipv4, rtm_newlink, rtm_newaddr, rtm_newroute}
use asterkube.Netlink.Socket.{NlSocket, Reply, Exchange, acknowledged}

abbrev pub ifla_ifname : ℕ
ifla_ifname = 3

abbrev pub ifla_master : ℕ
ifla_master = 10

abbrev pub ifla_linkinfo : ℕ
ifla_linkinfo = 18

abbrev pub ifla_net_ns_pid : ℕ
ifla_net_ns_pid = 19

abbrev pub ifla_info_kind : ℕ
ifla_info_kind = 1

abbrev pub ifla_info_data : ℕ
ifla_info_data = 2

abbrev pub veth_info_peer : ℕ
veth_info_peer = 1

abbrev pub ifa_address : ℕ
ifa_address = 1

abbrev pub ifa_local : ℕ
ifa_local = 2

abbrev pub rta_oif : ℕ
rta_oif = 4

abbrev pub rta_gateway : ℕ
rta_gateway = 5

abbrev pub if_infomsg_len : ℕ
if_infomsg_len = 16

abbrev pub rtmsg_len : ℕ
rtmsg_len = 12

abbrev pub if_name_max_size : ℕ
if_name_max_size = 15

-- NLM_F_REQUEST | NLM_F_ACK | NLM_F_CREATE, with NLM_F_EXCL, with NLM_F_REPLACE, and alone.
abbrev pub create_excl_flags : ℕ
create_excl_flags = bit_or (bit_or (bit_or 0x1 0x4) 0x400) 0x200

abbrev pub create_replace_flags : ℕ
create_replace_flags = bit_or (bit_or (bit_or 0x1 0x4) 0x400) 0x100

abbrev pub create_flags : ℕ
create_flags = bit_or (bit_or 0x1 0x4) 0x400

-- The peer's empty ifinfomsg, its name, and the namespace it goes to.
unfoldable pub peer_body : Bytes → ℕ → Bytes
peer_body peer_name peer_pid = concat (
    replicate if_infomsg_len 0
    ∷ nl_attr_str ifla_ifname peer_name
    ∷ nl_attr_u32 ifla_net_ns_pid peer_pid
    ∷ [])

unfoldable pub veth_link_info : Bytes → ℕ → Bytes
veth_link_info peer_name peer_pid = nl_attr ifla_linkinfo (
    concat (
      nl_attr_str ifla_info_kind (codes "veth")
      ∷ nl_attr ifla_info_data (nl_attr veth_info_peer (peer_body peer_name peer_pid))
      ∷ []))

unfoldable pub veth_peer_netns_body : Bytes → Bytes → ℕ → Bytes
veth_peer_netns_body name peer_name peer_pid = concat (
    replicate if_infomsg_len 0
    ∷ nl_attr_str ifla_ifname name
    ∷ veth_link_info peer_name peer_pid
    ∷ [])

unfoldable pub create_veth_peer_netns : NlSocket → Bytes → Bytes → ℕ → Reply → Exchange (Unit {0})
create_veth_peer_netns s name peer_name peer_pid reply =
    acknowledged s rtm_newlink create_excl_flags (veth_peer_netns_body name peer_name peer_pid)
      reply

unfoldable pub bridge_body : Bytes → Bytes
bridge_body name = concat (
    replicate if_infomsg_len 0
    ∷ nl_attr_str ifla_ifname name
    ∷ nl_attr ifla_linkinfo (nl_attr_str ifla_info_kind (codes "bridge"))
    ∷ [])

unfoldable pub create_bridge : NlSocket → Bytes → Reply → Exchange (Unit {0})
create_bridge s name reply = acknowledged s rtm_newlink create_excl_flags (bridge_body name) reply

unfoldable pub veth_on_bridge_body : Bytes → Bytes → ℕ → ℕ → Bytes
veth_on_bridge_body host_name peer_name peer_pid master_index = concat (
    replicate if_infomsg_len 0
    ∷ nl_attr_str ifla_ifname host_name
    ∷ veth_link_info peer_name peer_pid
    ∷ nl_attr_u32 ifla_master master_index
    ∷ [])

unfoldable pub create_veth_on_bridge :
    NlSocket → Bytes → Bytes → ℕ → ℕ → Reply → Exchange (Unit {0})
create_veth_on_bridge s host_name peer_name peer_pid master_index reply =
    acknowledged s rtm_newlink create_excl_flags
      (veth_on_bridge_body host_name peer_name peer_pid master_index) reply

-- The message `not an IPv4 address`: nothing is sent.
abbrev pub refused : NlSocket → Exchange (Unit {0})
refused s = record { socket = s; sent = []; result = not_ipv4 }

-- struct ifaddrmsg { family; prefixlen; flags; scope; index } with AF_INET and byte(prefix).
unfoldable pub addr_body : ℕ → Bytes → ℕ → Bytes
addr_body ifindex v4 prefix = concat (
    (2 ∷ prefix % 256 ∷ 0 ∷ 0 ∷ put_u32 ifindex)
    ∷ nl_attr ifa_local v4
    ∷ nl_attr ifa_address v4
    ∷ [])

unfoldable pub add_addr_v4 : NlSocket → ℕ → Ip → ℕ → Reply → Exchange (Unit {0})
add_addr_v4 s ifindex ip prefix reply = elim (to4 ip) [
  | none ↦ refused s
  | some v4 ↦ acknowledged s rtm_newaddr create_replace_flags (addr_body ifindex v4 prefix) reply
]

-- struct rtmsg { family; dst_len; src_len; tos; table; protocol; scope; type; flags } with
-- AF_INET, RT_TABLE_MAIN, RTPROT_BOOT, RT_SCOPE_UNIVERSE and RTN_UNICAST.
unfoldable pub default_route_body : Bytes → ℕ → Bytes
default_route_body v4 ifindex = concat (
    (2 ∷ 0 ∷ 0 ∷ 0 ∷ 254 ∷ 3 ∷ 0 ∷ 1 ∷ 0 ∷ 0 ∷ 0 ∷ 0 ∷ [])
    ∷ nl_attr rta_gateway v4
    ∷ nl_attr_u32 rta_oif ifindex
    ∷ [])

unfoldable pub add_default_route_v4 : NlSocket → Ip → ℕ → Reply → Exchange (Unit {0})
add_default_route_v4 s gw ifindex reply = elim (to4 gw) [
  | none ↦ refused s
  | some v4 ↦ acknowledged s rtm_newroute create_flags (default_route_body v4 ifindex) reply
]
