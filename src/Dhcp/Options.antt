-- ===== src/Dhcp/Options.antt =====
-- The walk over the options of a reply: parseOptions of cmd/asterkube-init/dhcp_linux.go.
pub mod Items
pub mod Shape
use asterkube.Prelude.{
  ℕ, zero, suc, List, [], ◌∷◌, ◌++◌, take, drop, length, get_or, if◌then◌else◌, ltb, leb, ◌==◌,
}
use asterkube.Prelude.Words.{Bytes, u32}
use asterkube.Inet.{Ip}
use asterkube.Dhcp.Packet.{
  opt_subnet_mask, opt_router, opt_dns, opt_lease_time, opt_msg_type, opt_server_id, opt_end,
}

pub record DhcpLease : Type 0 where
  pub ip : Ip
  pub mask : Bytes
  pub gateway : Ip
  pub dns : List Ip
  pub server_id : Ip
  pub lease_sec : ℕ

-- `&dhcpLease{ip: …}`: all other fields are zero.
abbrev pub new_lease : Ip → DhcpLease
new_lease ip = record { ip = ip; mask = []; gateway = []; dns = []; server_id = []; lease_sec = 0 }

-- The variables of the walk that an option changes.
pub record Walk : Type 0 where
  pub msg_type : ℕ
  pub lease : DhcpLease

-- `for j := 0; j+4 <= l; j += 4`
unfoldable pub groups_of_four : Bytes → List Bytes
groups_of_four (a ∷ b ∷ c ∷ d ∷ rest) = (a ∷ b ∷ c ∷ d ∷ []) ∷ groups_of_four rest
groups_of_four _ = []

-- `binary.BigEndian.Uint32(v)`
abbrev pub u32_be : Bytes → ℕ
u32_be v = u32 (get_or v 3 0) (get_or v 2 0) (get_or v 1 0) (get_or v 0 0)

-- The switch on the option's code.
unfoldable pub take_option : ℕ → Bytes → Walk → Walk
take_option code v w =
    let l = length v in
    let lease = w.lease in
    if code == opt_msg_type
    then (if l == 1 then record w { msg_type = get_or v 0 0 } else w)
    else if code == opt_subnet_mask
    then (if l == 4 then record w { lease = record lease { mask = v } } else w)
    else if code == opt_router
    then (if leb 4 l then record w { lease = record lease { gateway = take 4 v } } else w)
    else if code == opt_dns
    then record w { lease = record lease { dns = lease.dns ++ groups_of_four v } }
    else if code == opt_server_id
    then (if l == 4 then record w { lease = record lease { server_id = v } } else w)
    else if code == opt_lease_time
    then (if l == 4 then record w { lease = record lease { lease_sec = u32_be v } } else w)
    else w

-- The loop, on what lies from the index `i` on. Each round takes a byte at least.
unfoldable pub options_loop : ℕ → Bytes → Walk → Walk
options_loop fuel [] w = w
options_loop zero (code ∷ rest) w = w
options_loop (suc fuel) (code ∷ []) w =
    let pad = options_loop fuel [] w in if code == opt_end then w else if code == 0 then pad else w
options_loop (suc fuel) (code ∷ l ∷ rest) w =
    let pad = options_loop fuel (l ∷ rest) w in
    let next = options_loop fuel (drop l rest) (take_option code (take l rest) w) in
    if code == opt_end
    then w
    else if code == 0
    then pad
    else if ltb (length rest) l
    then w
    else next

unfoldable pub parse_options : Bytes → DhcpLease → Walk
parse_options opts lease = options_loop (length opts) opts (record { msg_type = 0; lease = lease })
