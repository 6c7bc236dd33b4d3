-- ===== src/Node/Container/Quiet.antt =====
-- The tests of a pod tell the node agent nothing: cmd/asterkube-init/node.go, masq_linux.go and
-- service_linux.go.
use asterkube.Prelude.{
  ℕ, zero, suc, ◌-◌, ◌||◌, String, if◌then◌else◌, if_both, Option-both, ◌==◌, Option, none, some,
}
use asterkube.Prelude.Text.{str_eq}
use asterkube.Prelude.Prog.{Makes, Makes-bind, ◌>>◌}
use asterkube.Prelude.Words.{Bytes}
use asterkube.Inet.{parse_ip4, parse_ip}
use asterkube.Node.Container.{ContainerCall, signals_byte, ContainerProg, Env, has_failed}
use asterkube.Node.Container.Peers.{
  ping_up_to, pod_udp_send, listen_to_peer, send_to_peer, peer_roles, container_peer_test,
  container_cross_ping_test, bytes_less, pod_udp_receive,
}
use asterkube.Node.Container.Masquerade.{
  masq_server, masq_exchange, masq_attempts, masq_client, container_masq_test,
}
use asterkube.Node.Container.Service.{
  SendOutcome, got_reply, wrong_source, lost, again, service_client_send_once, try_send,
  ClientResult, go_on, client_sends, kp_sends, tcp_exchange, tcp_attempts, service_client,
  service_client_tcp, service_port, kp_client, container_service_test,
}
use asterkube.Node.Container.Veth.{when_text, default_route, network_tests}

-- A call that tells the agent nothing.
abbrev pub IsQuiet : ContainerCall → Type 0
IsQuiet (signals_byte fd) = ⊥
IsQuiet _ = Unit

abbrev IsQuietProg : ContainerProg (Unit {0}) → Type 0
IsQuietProg p = Makes IsQuiet p

when_text-IsQuiet :
    (value : String) (p : ContainerProg (Unit {0}))
    → IsQuietProg p
    → IsQuietProg (when_text value p)
when_text-IsQuiet value p m = if_both IsQuietProg (str_eq value "") tt m

then-IsQuiet :
    (p q : ContainerProg (Unit {0})) → IsQuietProg p → IsQuietProg q → IsQuietProg (p >> q)
then-IsQuiet p q m n = Makes-bind IsQuiet p (λ u. q) m (λ u. n)

ping_up_to-IsQuiet : (n : ℕ) (ip : String) → IsQuietProg (ping_up_to n ip)
unfolding ping_up_to
ping_up_to-IsQuiet zero ip = tt
ping_up_to-IsQuiet (suc zero) ip = (tt, λ r. tt)
ping_up_to-IsQuiet (suc (suc n)) ip =
    (tt, λ r. if_both IsQuietProg (has_failed r) (tt, λ q. ping_up_to-IsQuiet (suc n) ip) tt)

pod_udp_send-IsQuiet : (n : ℕ) (ip : String) → IsQuietProg (pod_udp_send n ip)
unfolding pod_udp_send
pod_udp_send-IsQuiet zero ip = tt
pod_udp_send-IsQuiet (suc n) ip =
    let paused = if_both IsQuietProg (n == 0) tt (tt, λ q. pod_udp_send-IsQuiet n ip) in
    (tt, λ r. if_both IsQuietProg (has_failed r) paused (tt, λ q. (tt, λ v. paused)))

peer_roles-IsQuiet : (a b : String) (me peer : Option Bytes) → IsQuietProg (peer_roles a b me peer)
unfolding listen_to_peer send_to_peer pod_udp_receive
peer_roles-IsQuiet a b none peer = tt
peer_roles-IsQuiet a b (some x) none = tt
peer_roles-IsQuiet a b (some x) (some y) =
    if_both IsQuietProg (bytes_less x y)
      (
        tt,
        λ r.
            then-IsQuiet (ping_up_to 3 b) _ (ping_up_to-IsQuiet 3 b)
              (if_both IsQuietProg (has_failed r) tt (tt, λ q. (tt, λ v. tt))),
      )
      (then-IsQuiet (ping_up_to 3 b) (pod_udp_send 10 b) (ping_up_to-IsQuiet 3 b)
        (pod_udp_send-IsQuiet 10 b))

peer_test-IsQuiet : (a b : String) → IsQuietProg (container_peer_test a b)
unfolding container_peer_test
peer_test-IsQuiet a b = peer_roles-IsQuiet a b (parse_ip4 a) (parse_ip4 b)

masq_attempts-IsQuiet : (n : ℕ) (ip : String) → IsQuietProg (masq_attempts n ip)
unfolding masq_attempts masq_exchange
masq_attempts-IsQuiet zero ip = tt
masq_attempts-IsQuiet (suc n) ip =
    let paused = if_both IsQuietProg (n == 0) tt (tt, λ q. masq_attempts-IsQuiet n ip) in
    (
      tt,
      λ d. if_both IsQuietProg (has_failed d) paused (
          Makes-bind IsQuiet masq_exchange _
            (tt, λ w. if_both (Makes IsQuiet) (has_failed w) (tt, λ q. tt) (tt, λ r. (tt, λ q. tt)))
            (λ r. if_both IsQuietProg (has_failed r) paused tt)),
    )

masq_test-IsQuiet : (env : Env) (ip : String) → IsQuietProg (container_masq_test env ip)
unfolding container_masq_test masq_server masq_client
masq_test-IsQuiet env ip =
    if_both IsQuietProg (str_eq (env "ASTERKUBE_MASQ_ROLE") "server")
      (
        tt,
        λ b.
            if_both IsQuietProg (has_failed b) tt
              (tt, λ r. if_both IsQuietProg (has_failed r) (tt, λ u. tt) (tt, λ q. (tt, λ u. tt))),
      )
      (if_both IsQuietProg (str_eq (env "ASTERKUBE_MASQ_ROLE") "client")
        (Option-both IsQuietProg (parse_ip (env "ASTERKUBE_MASQ_TARGET")) (λ e. tt)
          (λ a e. masq_attempts-IsQuiet 8 (env "ASTERKUBE_MASQ_TARGET")))
        tt)

tcp_exchange-IsQuiet : (vip port text : String) → Makes IsQuiet (tcp_exchange vip port text)
unfolding tcp_exchange
tcp_exchange-IsQuiet vip port text = (
  tt,
  λ d.
      if_both (Makes IsQuiet) (has_failed d) tt
        (tt, λ w. if_both (Makes IsQuiet) (has_failed w) (tt, λ q. tt) (tt, λ r. (tt, λ q. tt))),
)

tcp_attempts-IsQuiet :
    (n : ℕ) (vip port text : String) → Makes IsQuiet (tcp_attempts n vip port text)
unfolding tcp_attempts
tcp_attempts-IsQuiet zero vip port text = tt
tcp_attempts-IsQuiet (suc zero) vip port text = tcp_exchange-IsQuiet vip port text
tcp_attempts-IsQuiet (suc (suc n)) vip port text =
    Makes-bind IsQuiet (tcp_exchange vip port text) _ (tcp_exchange-IsQuiet vip port text) (λ r.
      if_both (Makes IsQuiet) (has_failed r) (tt, λ q. tcp_attempts-IsQuiet (suc n) vip port text)
        tt)

send_once-IsQuiet :
    (vip port : String) (seq : ℕ) → Makes IsQuiet (service_client_send_once vip port seq)
unfolding service_client_send_once
send_once-IsQuiet vip port seq = (
  tt,
  λ d.
      if_both (Makes IsQuiet) (has_failed d) tt
        (tt, λ w. if_both (Makes IsQuiet) (has_failed w) (tt, λ q. tt) (tt, λ r. (tt, λ q. tt))),
)

again-IsQuiet :
    (o : SendOutcome) (p : ContainerProg SendOutcome) → Makes IsQuiet p → Makes IsQuiet (again o p)
again-IsQuiet got_reply p m = tt
again-IsQuiet wrong_source p m = tt
again-IsQuiet lost p m = (tt, λ r. m)

try_send-IsQuiet : (n : ℕ) (vip port : String) (seq : ℕ) → Makes IsQuiet (try_send n vip port seq)
unfolding try_send
try_send-IsQuiet zero vip port seq = tt
try_send-IsQuiet (suc zero) vip port seq = send_once-IsQuiet vip port seq
try_send-IsQuiet (suc (suc n)) vip port seq =
    Makes-bind IsQuiet (service_client_send_once vip port seq) _ (send_once-IsQuiet vip port seq)
      (λ o. again-IsQuiet o _ (try_send-IsQuiet (suc n) vip port seq))

go_on-IsQuiet :
    (o : SendOutcome) (p q : ContainerProg ClientResult)
    → Makes IsQuiet p
    → Makes IsQuiet q
    → Makes IsQuiet (go_on o p q)
go_on-IsQuiet got_reply p q m n = m
go_on-IsQuiet wrong_source p q m n = tt
go_on-IsQuiet lost p q m n = n

client_sends-IsQuiet :
    (left : ℕ) (vip port : String) (ok : ℕ) → Makes IsQuiet (client_sends left vip port ok)
unfolding client_sends
client_sends-IsQuiet zero vip port ok = tt
client_sends-IsQuiet (suc left) vip port ok =
    let more = client_sends-IsQuiet left vip port (suc ok) in
    let same = client_sends-IsQuiet left vip port ok in
    Makes-bind IsQuiet (try_send (if left == 7 then 5 else 1) vip port (7 - left)) _
      (try_send-IsQuiet (if left == 7 then 5 else 1) vip port (7 - left))
      (λ o. go_on-IsQuiet o _ _ more same)

kp_sends-IsQuiet : (left : ℕ) (vip port : String) → IsQuietProg (kp_sends left vip port)
unfolding kp_sends
kp_sends-IsQuiet zero vip port = tt
kp_sends-IsQuiet (suc left) vip port =
    Makes-bind IsQuiet (tcp_attempts (if left == 9 then 6 else 1) vip port "kp-hello") _
      (tcp_attempts-IsQuiet (if left == 9 then 6 else 1) vip port "kp-hello")
      (λ r. kp_sends-IsQuiet left vip port)

service_client-IsQuiet : (env : Env) → Makes IsQuiet (service_client env)
unfolding service_client
service_client-IsQuiet env =
    Option-both (Makes IsQuiet) (parse_ip (env "ASTERKUBE_SVC_VIP")) (λ e. tt)
      (λ a e. client_sends-IsQuiet 8 (env "ASTERKUBE_SVC_VIP") (service_port env) 0)

service_client_tcp-IsQuiet : (env : Env) → IsQuietProg (service_client_tcp env)
unfolding service_client_tcp
service_client_tcp-IsQuiet env =
    let vip = env "ASTERKUBE_SVC_VIP" in
    Option-both IsQuietProg (parse_ip vip) (λ e. tt)
      (λ a e.
        Makes-bind IsQuiet (tcp_attempts 6 vip (service_port env) "svc-tcp-hello") _
          (tcp_attempts-IsQuiet 6 vip (service_port env) "svc-tcp-hello") (λ r. tt))

service_test-IsQuiet : (env : Env) (ip : String) → IsQuietProg (container_service_test env ip)
unfolding container_service_test kp_client
service_test-IsQuiet env ip =
    let role = env "ASTERKUBE_SVC_ROLE" in
    let vip = env "ASTERKUBE_SVC_VIP" in
    if_both IsQuietProg (str_eq role "backend" || str_eq role "kpbackend") (tt, λ r. tt)
      (if_both IsQuietProg (str_eq role "client")
        (Makes-bind IsQuiet (service_client env) _ (service_client-IsQuiet env)
          (λ r. service_client_tcp-IsQuiet env))
        (if_both IsQuietProg (str_eq role "kpclient")
          (Option-both IsQuietProg (parse_ip vip) (λ e. tt) (λ a e. kp_sends-IsQuiet 10 vip _)) tt))

default_route-IsQuiet : (gw : String) (idx : ℕ) → IsQuietProg (default_route gw idx)
unfolding default_route
default_route-IsQuiet gw idx = (tt, λ r. if_both IsQuietProg (has_failed r) tt (tt, λ q. tt))

pub network_tests-IsQuiet :
    (env : Env) (ip : String) (idx : ℕ) → IsQuietProg (network_tests env ip idx)
unfolding network_tests container_cross_ping_test
network_tests-IsQuiet env ip idx =
    let gw = env "ASTERKUBE_HOST_IP" in
    let peer = env "ASTERKUBE_PEER_IP" in
    let cross = env "ASTERKUBE_CROSS_PING" in
    then-IsQuiet _ _
      (then-IsQuiet _ _
        (then-IsQuiet _ _
          (then-IsQuiet _ _
            (then-IsQuiet _ _ (when_text-IsQuiet gw _ (default_route-IsQuiet gw idx))
              (when_text-IsQuiet gw _ (tt, λ r. tt)))
            (when_text-IsQuiet peer _ (peer_test-IsQuiet ip peer)))
          (when_text-IsQuiet (env "ASTERKUBE_SVC_ROLE") _ (service_test-IsQuiet env ip)))
        (when_text-IsQuiet cross _ (ping_up_to-IsQuiet 6 cross)))
      (when_text-IsQuiet (env "ASTERKUBE_MASQ_ROLE") _ (masq_test-IsQuiet env ip))
