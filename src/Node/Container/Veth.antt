-- ===== src/Node/Container/Veth.antt =====
-- The process of a pod: runContainer and containerVethTest of cmd/asterkube-init/node.go.
use asterkube.Prelude.{
  ℕ, ◌&&◌, ◌||◌, List, [], ◌∷◌, Option, none, some, or_else, leb, ◌==◌, if◌then◌else◌, String,
}
use asterkube.Prelude.Int.{ℤ, pos}
use asterkube.Prelude.Text.{str_eq, codes}
use asterkube.Prelude.Decimal.{atoi}
use asterkube.Prelude.Prog.{ret, ask, ◌>>=◌, ◌>>◌}
use asterkube.Node.Tenants.{container_set_tenant}
use asterkube.Node.Container.{
  awaits_byte, signals_byte, takes_tenant, sets_hostname, opens_rtnl, closes_rtnl, looks_up,
  assigns, routes_via, reads_route, pings, binds, unbinds, receives, loops_back, probes_tenant,
  works, ContainerAnswer, index, ContainerProg, Env, has_failed,
}
use asterkube.Node.Container.Peers.{container_peer_test, container_cross_ping_test}
use asterkube.Node.Container.Masquerade.{container_masq_test}
use asterkube.Node.Container.Service.{container_service_test}

-- The digits in front.
abbrev pub leading_digits : List ℕ → List ℕ
leading_digits [] = []
leading_digits (c ∷ s) = if leb 48 c && leb c 57 then c ∷ leading_digits s else []

-- A number with its sign behind spaces, as `%d` of fmt.Sscanf takes it.
unfoldable pub leading_number : List ℕ → List ℕ
leading_number [] = []
leading_number (c ∷ s) =
    let rest = leading_number s in
    if c == 32 || c == 9
    then rest
    else if c == 45 || c == 43
    then c ∷ leading_digits s
    else leading_digits (c ∷ s)

-- The prefix stays 24 where the variable has none.
unfoldable pub veth_prefix : Env → ℤ
unfolding leading_number atoi
veth_prefix env = or_else (atoi (leading_number (codes (env "ASTERKUBE_VETH_PREFIX")))) (pos 24)

-- What containerVethTest answers.
pub data VethResult : Type 0 where
  no_netlink no_eth0 no_address no_bind no_datagram cross_ns_ok : VethResult

abbrev pub when_text : String → ContainerProg (Unit {0}) → ContainerProg (Unit {0})
when_text value p = if str_eq value "" then ret tt else p

-- The route is read back only to be printed.
unfoldable pub default_route : String → ℕ → ContainerProg (Unit {0})
default_route gw idx =
    ask (routes_via gw idx) >>= λ r. if has_failed r then ret tt else ask reads_route >> ret tt

-- The tests that a pod with an address makes, of those that its environment asks for.
unfoldable pub network_tests : Env → String → ℕ → ContainerProg (Unit {0})
unfolding default_route container_cross_ping_test
network_tests env pod_ip idx =
    let gw = env "ASTERKUBE_HOST_IP" in
    let peer = env "ASTERKUBE_PEER_IP" in
    let cross = env "ASTERKUBE_CROSS_PING" in
    when_text gw (default_route gw idx)
    >> when_text gw (ask (pings gw) >> ret tt)
    >> when_text peer (container_peer_test pod_ip peer)
    >> when_text (env "ASTERKUBE_SVC_ROLE") (container_service_test env pod_ip)
    >> when_text cross (container_cross_ping_test cross)
    >> when_text (env "ASTERKUBE_MASQ_ROLE") (container_masq_test env pod_ip)

abbrev pub veth_udp_port : String
veth_udp_port = "9999"

abbrev pub closing : VethResult → ContainerProg VethResult
closing result = ask closes_rtnl >> ret result

-- From the bind on: the node agent is told on the descriptor 4.
unfoldable pub listen_for_host : String → ContainerProg VethResult
listen_for_host pod_ip = ask (binds pod_ip veth_udp_port) >>= λ b.
    if has_failed b
    then closing no_bind
    else ask (signals_byte 4) >> ask (receives 5000) >>= λ r.
        ask (unbinds pod_ip veth_udp_port)
        >> closing (if has_failed r then no_datagram else cross_ns_ok)

-- The interface that the agent has made.
unfoldable pub with_eth0 : Env → String → ℕ → ContainerProg VethResult
unfolding network_tests listen_for_host veth_prefix
with_eth0 env pod_ip idx = ask (assigns idx pod_ip (veth_prefix env)) >>= λ a.
    if has_failed a
    then closing no_address
    else network_tests env pod_ip idx >> listen_for_host pod_ip

abbrev pub found_eth0 : Env → String → ContainerAnswer → ContainerProg VethResult
found_eth0 env pod_ip (index idx) = with_eth0 env pod_ip idx
found_eth0 env pod_ip _ = closing no_eth0

unfoldable pub container_veth_test : Env → String → ContainerProg VethResult
container_veth_test env pod_ip = ask (awaits_byte 5) >> ask opens_rtnl >>= λ o.
    if has_failed o then ret no_netlink else ask (looks_up "eth0") >>= λ r. found_eth0 env pod_ip r

abbrev pub set_tenant : Option ℕ → ContainerProg (Unit {0})
set_tenant none = ret tt
set_tenant (some t) = ask (takes_tenant t) >> ret tt

-- The work of a pod without an address.
abbrev pub own_work : Env → ContainerProg (Unit {0})
own_work env =
    let pod_ip = env "ASTERKUBE_POD_IP" in
    if str_eq pod_ip ""
    then ask works >> ret tt
    else container_veth_test env pod_ip >>= λ result. ret tt

unfoldable pub run_container : Env → ContainerProg (Unit {0})
unfolding container_veth_test container_set_tenant
run_container env =
    let hostname = env "ASTERKUBE_POD_HOSTNAME" in
    let target = env "ASTERKUBE_TENANT_PROBE_IP" in
    ask (awaits_byte 3)
    >> set_tenant (container_set_tenant (env "ASTERKUBE_POD_TENANT"))
    >> when_text hostname (ask (sets_hostname hostname) >> ret tt)
    >> ask loops_back
    >> own_work env
    >> when_text target (ask (probes_tenant target) >> ret tt)
