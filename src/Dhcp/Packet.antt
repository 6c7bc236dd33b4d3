-- ===== src/Dhcp/Packet.antt =====
-- The request that buildDHCP of cmd/asterkube-init/dhcp_linux.go assembles.
pub mod Layout
use asterkube.Prelude.{ℕ, Bool, [], ◌∷◌, ◌++◌, Option, none, some, replicate, take, if◌then◌else◌}
use asterkube.Prelude.Words.{Bytes, put_u16_be, put_u32_be, copy_at}
use asterkube.Inet.{Ip, to4, is_nil}

abbrev pub bootp_request : ℕ
bootp_request = 1

abbrev pub bootp_reply : ℕ
bootp_reply = 2

abbrev pub htype_eth : ℕ
htype_eth = 1

abbrev pub dhcp_discover : ℕ
dhcp_discover = 1

abbrev pub dhcp_offer : ℕ
dhcp_offer = 2

abbrev pub dhcp_request : ℕ
dhcp_request = 3

abbrev pub dhcp_ack : ℕ
dhcp_ack = 5

abbrev pub opt_subnet_mask : ℕ
opt_subnet_mask = 1

abbrev pub opt_router : ℕ
opt_router = 3

abbrev pub opt_dns : ℕ
opt_dns = 6

abbrev pub opt_requested_ip : ℕ
opt_requested_ip = 50

abbrev pub opt_lease_time : ℕ
opt_lease_time = 51

abbrev pub opt_msg_type : ℕ
opt_msg_type = 53

abbrev pub opt_server_id : ℕ
opt_server_id = 54

abbrev pub opt_param_list : ℕ
opt_param_list = 55

abbrev pub opt_end : ℕ
opt_end = 255

abbrev pub dhcp_flag_broadcast : ℕ
dhcp_flag_broadcast = 0x8000

abbrev pub dhcp_magic_cookie : Bytes
dhcp_magic_cookie = 0x63 ∷ 0x82 ∷ 0x53 ∷ 0x63 ∷ []

-- `if ip != nil { if v4 := ip.To4(); v4 != nil { … } }`
unfoldable pub given_v4 : Ip → Option Bytes
unfolding is_nil
given_v4 ip = if is_nil ip then none else to4 ip

-- `opts = append(opts, code, 4); opts = append(opts, v4...)`
abbrev pub address_option : ℕ → Option Bytes → Bytes
address_option code none = []
address_option code (some v4) = code ∷ 4 ∷ v4

unfoldable pub request_options : ℕ → Ip → Ip → Bytes
request_options msg_type req_ip server_id =
    (opt_msg_type ∷ 1 ∷ msg_type ∷ [])
    ++ (address_option opt_requested_ip (given_v4 req_ip)
        ++ (address_option opt_server_id (given_v4 server_id)
            ++ (opt_param_list ∷ 5 ∷ opt_subnet_mask ∷ opt_router ∷ opt_dns ∷ opt_lease_time
                ∷ opt_server_id ∷ opt_end ∷ [])))

abbrev pub copy_given : Bytes → ℕ → Option Bytes → Bytes
copy_given p off none = p
copy_given p off (some v4) = copy_at p off v4

-- The 240 bytes of the header, written in the order of the code: op, htype and hlen; xid; the
-- broadcast flag; ciaddr; chaddr, of which `p[28:34]` takes six bytes; the cookie.
unfoldable pub header : Bytes → ℕ → Ip → Bool → Bytes
header mac xid ciaddr broadcast =
    let p0 = copy_at (replicate 240 0) 0 (bootp_request ∷ htype_eth ∷ 6 ∷ []) in
    let p1 = copy_at p0 4 (put_u32_be xid) in
    let p2 = if broadcast then copy_at p1 10 (put_u16_be dhcp_flag_broadcast) else p1 in
    let p3 = copy_given p2 12 (given_v4 ciaddr) in
    let p4 = copy_at p3 28 (take 6 mac) in copy_at p4 236 dhcp_magic_cookie

unfoldable pub build_dhcp : ℕ → Bytes → ℕ → Ip → Ip → Ip → Bool → Bytes
build_dhcp msg_type mac xid ciaddr req_ip server_id broadcast =
    header mac xid ciaddr broadcast ++ request_options msg_type req_ip server_id
