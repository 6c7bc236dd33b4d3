-- ===== src/Netlink/Dump.antt =====
-- The dumps of cmd/asterkube-init/netlink_linux.go: defaultRouteGateway, linkIndexByName and
-- linkByName.
pub mod Agree
use asterkube.Prelude.{
  ℕ, ◌≡◌, ◌&&◌, ◌||◌, not, Bool, true, false, List, [], ◌∷◌, Option, none, some, ltb, ◌==◌,
  if◌then◌else◌, length, drop, get_or, replicate, bit_or,
}
use asterkube.Prelude.Words.{Bytes, bytes_eq}
use asterkube.Inet.{Ip}
use asterkube.Netlink.Attr.{
  RouteAttr, Parsed, parsed, invalid, panicked, no_fuel, parse_attrs, trim_nul,
}
use asterkube.Netlink.Message.{
  NlMessage, NlResult, ok, netlink_error, not_found, index_panic, blocked, nlmsg_error, nlmsg_done,
  rtm_newlink, rtm_getlink, rtm_newroute, rtm_getroute, word_at, data_word, errno_of,
}
use asterkube.Netlink.Socket.{NlSocket, Reply, Exchange, request}
use asterkube.Netlink.Requests.{ifla_ifname, rta_gateway, rtmsg_len, if_infomsg_len}

-- NLM_F_REQUEST | NLM_F_DUMP
abbrev pub dump_flags : ℕ
dump_flags = bit_or 0x1 0x300

-- `syscall.ParseNetlinkRouteAttr`: the attributes behind the fixed part; `m.Data[fixed:]` panics
-- on a shorter body.
unfoldable pub attrs_of : ℕ → NlMessage → Parsed (List RouteAttr)
attrs_of fixed m =
    if ltb (length m.body) fixed then panicked else parse_attrs (length m.body) (drop fixed m.body)

-- `continue` on an attribute error; the panic of the walk is the loop's.
abbrev pub with_attrs {ℓ} :
    {A : Type ℓ}
    → Parsed (List RouteAttr)
    → (List RouteAttr → Option (NlResult A))
    → Option (NlResult A)
with_attrs (parsed attrs) k = k attrs
with_attrs invalid k = none
with_attrs panicked k = some index_panic
with_attrs no_fuel k = some blocked

-- The switch of a dump loop: what DONE answers, and what an entry of the asked type does.
abbrev pub dump_of {ℓ} :
    {A : Type ℓ}
    → ℕ
    → NlResult A
    → (NlMessage → Option (NlResult A))
    → ℕ
    → NlMessage
    → Option (NlResult A)
dump_of entry_type at_end entry seq m =
    if not (m.seq == seq)
    then none
    else if m.msg_type == nlmsg_done
    then some at_end
    else if m.msg_type == nlmsg_error
    then some (data_word m (λ w. netlink_error (errno_of w)))
    else if m.msg_type == entry_type
    then entry m
    else none

unfoldable pub gateway_attr : List RouteAttr → Option (NlResult Ip)
gateway_attr [] = none
gateway_attr (a ∷ attrs) =
    if a.kind == rta_gateway && length a.value == 4 then some (ok a.value) else gateway_attr attrs

-- A route with `dst_len == 0` that names a gateway of four bytes.
unfoldable pub gateway_entry : NlMessage → Option (NlResult Ip)
unfolding gateway_attr
gateway_entry m =
    if ltb (length m.body) rtmsg_len || not (get_or m.body 1 0 == 0)
    then none
    else with_attrs (attrs_of rtmsg_len m) gateway_attr

-- nil, the empty address, where the dump ends without one.
unfoldable pub default_route_gateway : NlSocket → Reply → Exchange Ip
default_route_gateway s reply =
    request s rtm_getroute dump_flags (replicate rtmsg_len 0) reply 16384
      (dump_of rtm_newroute (ok []) gateway_entry)

-- `int(ifi.Index)`, the 32-bit word behind family, type and padding.
abbrev pub link_index : NlMessage → ℕ
link_index m = word_at 4 m.body

-- Some attribute is the name.
unfoldable pub names_link : Bytes → List RouteAttr → Bool
names_link name [] = false
names_link name (a ∷ attrs) =
    if a.kind == ifla_ifname && bytes_eq (trim_nul a.value) name
    then true
    else names_link name attrs

unfoldable pub index_entry : Bytes → NlMessage → Option (NlResult ℕ)
index_entry name m =
    with_attrs (attrs_of if_infomsg_len m)
      (λ attrs. if names_link name attrs then some (ok (link_index m)) else none)

unfoldable pub link_index_by_name : NlSocket → Bytes → Reply → Exchange ℕ
link_index_by_name s name reply =
    request s rtm_getlink dump_flags (replicate if_infomsg_len 0) reply 16384
      (dump_of rtm_newlink not_found (index_entry name))

-- IFLA_ADDRESS
abbrev pub ifla_address : ℕ
ifla_address = 1

-- The variables `matched` and `mac` of linkByName's walk.
pub record LinkScan : Type 0 where
  pub matched : Bool
  pub mac : Bytes

unfoldable pub scan_attr : Bytes → LinkScan → RouteAttr → LinkScan
scan_attr name st a =
    if a.kind == ifla_ifname
    then record st { matched = bytes_eq (trim_nul a.value) name }
    else if a.kind == ifla_address && length a.value == 6
    then record st { mac = a.value }
    else st

unfoldable pub scan_link : Bytes → LinkScan → List RouteAttr → LinkScan
scan_link name st [] = st
scan_link name st (a ∷ attrs) = scan_link name (scan_attr name st a) attrs

unfoldable pub link_entry : Bytes → NlMessage → Option (NlResult (ℕ × Bytes))
link_entry name m = with_attrs (attrs_of if_infomsg_len m) (λ attrs.
    let st = scan_link name (record { matched = false; mac = [] }) attrs in
    if st.matched then some (ok (link_index m, st.mac)) else none)

-- The index, and the hardware address, nil where the kernel gives none.
unfoldable pub link_by_name : NlSocket → Bytes → Reply → Exchange (ℕ × Bytes)
link_by_name s name reply =
    request s rtm_getlink dump_flags (replicate if_infomsg_len 0) reply 16384
      (dump_of rtm_newlink not_found (link_entry name))
