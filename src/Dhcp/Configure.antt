-- ===== src/Dhcp/Configure.antt =====
-- The interface configured from a lease: dhcpFirst, applyLeaseDelta and writeResolvConf of
-- cmd/asterkube-init/dhcp_linux.go, on the netlink client.
pub mod LeaseFrames
use asterkube.Prelude.{
  ℕ, zero, suc, ◌+◌, ◌*◌, ◌/◌, ◌%◌, Bool, true, false, not, ◌&&◌, ◌||◌, List, [], ◌∷◌, ◌++◌, Option,
  none, some, if◌then◌else◌, ◌==◌, map,
}
use asterkube.Prelude.Words.{Bytes}
use asterkube.Inet.{Ip, is_nil, is_unspecified}
use asterkube.Netlink.Message.{NlResult, ok}
use asterkube.Netlink.Socket.{NlSocket, Reply, Exchange}
use asterkube.Netlink.Requests.{add_addr_v4, add_default_route_v4}
use asterkube.Netlink.Dump.{link_by_name}
use asterkube.Dhcp.Options.{DhcpLease}
use asterkube.Dhcp.Receive.{ok as acquired, failed, DhcpResult}
use asterkube.Dhcp.Client.{AcquireEnv, Trace, dhcp_acquire}

-- The leading ones of a byte, if nothing follows them, with the digits to go.
unfoldable pub leading_ones : ℕ → ℕ → Option ℕ
leading_ones zero v = some 0
leading_ones (suc fuel) v =
    let more = leading_ones fuel (v * 2 % 256) in
    if v / 128 == 1
    then elim more [ none ↦ none | some n ↦ some (suc n) ]
    else if v == 0
    then some 0
    else none

unfoldable pub all_zero : Bytes → Bool
all_zero [] = true
all_zero (b ∷ bs) = b == 0 && all_zero bs

-- The ones of a mask that is a prefix.
unfoldable pub prefix_ones : Bytes → Option ℕ
prefix_ones [] = some 0
prefix_ones (b ∷ bs) =
    let more = prefix_ones bs in
    if b == 255
    then elim more [ none ↦ none | some n ↦ some (8 + n) ]
    else if all_zero bs
    then leading_ones 8 b
    else none

-- `prefix, _ := mask.Size()`: 0 where the mask is no prefix.
unfoldable pub mask_size : Bytes → ℕ
mask_size mask = elim (prefix_ones mask) [ some n ↦ n | none ↦ 0 ]

-- `lease.gateway != nil && !lease.gateway.IsUnspecified()`
unfoldable pub has_gateway : DhcpLease → Bool
has_gateway lease = not (is_nil lease.gateway) && not (is_unspecified lease.gateway)

-- The name servers that are written to the resolver's file; without any it is left alone.
unfoldable pub resolv_conf : List Ip → Option (List Ip)
resolv_conf [] = none
resolv_conf (d ∷ ds) = some (d ∷ ds)

-- How the kernel meets the two requests.
pub record ApplyEnv : Type 0 where
  pub address : Reply
  pub route : Reply

-- The default route, if the lease has a gateway. Its error is ignored.
unfoldable pub route_sent : NlSocket → ℕ → DhcpLease → Reply → List Bytes
route_sent s idx lease reply =
    if has_gateway lease then (add_default_route_v4 s lease.gateway idx reply).sent else []

pub record Applied : Type 0 where
  pub sent : List Bytes
  pub resolv : Option (List Ip)

-- With the socket that nlOpen gives, or without.
unfoldable pub apply_lease_delta : Option NlSocket → ℕ → DhcpLease → ApplyEnv → Applied
apply_lease_delta none idx lease env = record { sent = []; resolv = resolv_conf lease.dns }
apply_lease_delta (some s) idx lease env =
    let address = add_addr_v4 s idx lease.ip (mask_size lease.mask) env.address in
    record {
      sent = address.sent ++ route_sent address.socket idx lease env.route;
      resolv = resolv_conf lease.dns;
    }

-- Where the kernel shows no hardware address.
abbrev pub fallback_mac : Bytes
fallback_mac = 2 ∷ 0 ∷ 0 ∷ 0 ∷ 0 ∷ 1 ∷ []

pub record FirstEnv : Type 0 where
  pub lookup_socket : Option NlSocket
  pub lookup : Reply
  pub xid : ℕ
  pub acquire : AcquireEnv
  pub socket : Option NlSocket
  pub apply : ApplyEnv

-- A run that configures the interface: what it applied, and the renewal loop that it starts.
pub record Configured : Type 0 where
  pub applied : Applied
  pub mac : Bytes
  pub index : ℕ
  pub lease : DhcpLease

-- An address that cannot be assigned ends the run; a route that cannot be added does not.
abbrev pub if_assigned : NlResult (Unit {0}) → Configured → Option Configured
if_assigned (ok u) c = some c
if_assigned _ c = none

unfoldable pub assign : NlSocket → ℕ → Bytes → DhcpLease → ApplyEnv → Option Configured
assign s idx mac lease env =
    if_assigned (add_addr_v4 s idx lease.ip (mask_size lease.mask) env.address).result (record {
      applied = apply_lease_delta (some s) idx lease env;
      mac = mac;
      index = idx;
      lease = lease;
    })

abbrev pub assign_if_open : Option NlSocket → ℕ → Bytes → DhcpLease → ApplyEnv → Option Configured
assign_if_open none idx mac lease env = none
assign_if_open (some s) idx mac lease env = assign s idx mac lease env

abbrev pub if_leased : FirstEnv → ℕ → Bytes → DhcpResult DhcpLease → Option Configured
if_leased env idx mac (acquired lease) = assign_if_open env.socket idx mac lease env.apply
if_leased env idx mac (failed e) = none

unfoldable pub configure : FirstEnv → ℕ → Bytes → Option Configured
configure env idx mac = if_leased env idx mac (dhcp_acquire mac env.xid env.acquire).result

abbrev pub link_found : FirstEnv → NlResult (ℕ × Bytes) → Option Configured
link_found env (ok (idx, mac)) = configure env idx (if is_nil mac then fallback_mac else mac)
link_found env _ = none

-- `none` where it answers false.
unfoldable pub dhcp_first : FirstEnv → Bytes → Option Configured
dhcp_first env iface = elim env.lookup_socket [
  | none ↦ none
  | some s ↦ link_found env (link_by_name s iface env.lookup).result
]
