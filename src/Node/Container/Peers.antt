-- ===== src/Node/Container/Peers.antt =====
-- Two pods of a bridge: containerPeerTest, podUDPReceive, podUDPSend and containerCrossPingTest of
-- cmd/asterkube-init/node.go.
pub mod Roles
use asterkube.Prelude.{
  ℕ, zero, suc, Bool, true, false, [], ◌∷◌, Option, some, ltb, ◌==◌, if◌then◌else◌, String,
}
use asterkube.Prelude.Prog.{ret, ask, bind, ◌>>=◌, ◌>>◌}
use asterkube.Prelude.Words.{Bytes}
use asterkube.Inet.{parse_ip4}
use asterkube.Node.Container.{
  pings, binds, unbinds, receives, dials, sends_text, hangs_up, sleeps, ContainerProg, has_failed,
}

-- `bytes.Compare(a, b) < 0`
unfoldable pub bytes_less : Bytes → Bytes → Bool
bytes_less [] [] = false
bytes_less [] (y ∷ ys) = true
bytes_less (x ∷ xs) [] = false
bytes_less (x ∷ xs) (y ∷ ys) =
    let rest = bytes_less xs ys in if ltb x y then true else if ltb y x then false else rest

abbrev pub bridge_udp_port : String
bridge_udp_port = "9998"

-- Pings with two seconds between them, until one is answered or so many are sent.
unfoldable pub ping_up_to : ℕ → String → ContainerProg (Unit {0})
ping_up_to zero ip = ret tt
ping_up_to (suc zero) ip = ask (pings ip) >> ret tt
ping_up_to (suc (suc more)) ip =
    let rest = ping_up_to (suc more) ip in
    ask (pings ip) >>= λ r. if has_failed r then ask (sleeps 2000) >> rest else ret tt

unfoldable pub container_cross_ping_test : String → ContainerProg (Unit {0})
unfolding ping_up_to
container_cross_ping_test cross_ip = ping_up_to 6 cross_ip

unfoldable pub pod_udp_receive : String → ContainerProg (Unit {0})
pod_udp_receive pod_ip = ask (receives 12000) >> ret tt

-- So many datagrams, one second apart.
unfoldable pub pod_udp_send : ℕ → String → ContainerProg (Unit {0})
pod_udp_send zero peer_ip = ret tt
pod_udp_send (suc more) peer_ip =
    let rest = pod_udp_send more peer_ip in
    let paused = if more == 0 then ret tt else ask (sleeps 1000) >> rest in
    ask (dials peer_ip bridge_udp_port) >>= λ r.
    if has_failed r then paused else ask (sends_text "bridged-hello") >> ask hangs_up >> paused

-- The lower address listens: it binds before it pings.
unfoldable pub listen_to_peer : String → String → ContainerProg (Unit {0})
unfolding ping_up_to pod_udp_receive
listen_to_peer pod_ip peer_ip = ask (binds pod_ip bridge_udp_port) >>= λ r.
    ping_up_to 3 peer_ip
    >> (if has_failed r
        then ret tt
        else pod_udp_receive pod_ip >> ask (unbinds pod_ip bridge_udp_port) >> ret tt)

-- The higher one sends.
unfoldable pub send_to_peer : String → ContainerProg (Unit {0})
unfolding ping_up_to pod_udp_send
send_to_peer peer_ip = ping_up_to 3 peer_ip >> pod_udp_send 10 peer_ip

-- An address that does not parse ends the test.
abbrev pub peer_roles : String → String → Option Bytes → Option Bytes → ContainerProg (Unit {0})
peer_roles pod_ip peer_ip (some me) (some peer) =
    if bytes_less me peer then listen_to_peer pod_ip peer_ip else send_to_peer peer_ip
peer_roles pod_ip peer_ip _ _ = ret tt

unfoldable pub container_peer_test : String → String → ContainerProg (Unit {0})
unfolding parse_ip4
container_peer_test pod_ip peer_ip =
    peer_roles pod_ip peer_ip (parse_ip4 pod_ip) (parse_ip4 peer_ip)
